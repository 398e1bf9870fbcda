-- ===== src/Hackathon/Payments/Review.antt =====
-- `verify` and `reject` of apps/hackathons/payments.py.
use srkrcc_main_application.Common.{
  ℕ, ◌≡◌, Bool, false, ◌||◌, not, ◌&&◌, some, arith, ◌==◌, first, if◌then◌else◌, update,
}
use srkrcc_main_application.Common.Rows.Laws.{exists_of_first, first-save, exists-save}
use srkrcc_main_application.Hackathon.Payments.Invariant.{team_key}
use srkrcc_main_application.Hackathon.Model.{
  User, Team, TeamStatus, TeamPayment, forming, registered, payment_pending, pay_pending,
  pay_verified, is_pay_pending,
}
use srkrcc_main_application.Hackathon.Monad.{Db, ok, err, no_seats}
use srkrcc_main_application.Hackathon.Outcome.{Returns}
use srkrcc_main_application.Hackathon.Store.{size}
use srkrcc_main_application.Hackathon.Registration.Capacity.{
  teams_full, participants_would_exceed, should_waitlist_new_team,
}
use srkrcc_main_application.Hackathon.Team.{recompute_status, save_status, size_status}
use srkrcc_main_application.Hackathon.Payments.{
  lock_payment, save_payment, seat_or_no_seats, reviewed, verify,
}

-- Whether the hackathon has no room for one more team of one person.
abbrev pub is_full : Db → Bool
is_full db =
    teams_full db.hackathon db.teams || participants_would_exceed db.hackathon db.teams db.members 1

-- The team as `verify` places it.
abbrev pub placed_team : Team → Db → Team
placed_team t db = record t {
  status = size_status db.hackathon.min_team_size (size t.pk db.members);
  is_waitlisted = is_full db;
}

-- Verifying a payment that waits, with its team, for a decision: refused when the hackathon is full
-- and has no waitlist; otherwise the payment is VERIFIED by the actor, the team queues exactly when
-- the hackathon is full, and it is REGISTERED exactly when it has the minimum size.
pub verify_pending :
    (actor : User) (pk : ℕ) (p : TeamPayment) (t : Team) (db : Db)
    → lock_payment actor pk db ≡ ok ((p, t), db)
    → first (λ x. x.pk == t.pk) db.teams ≡ some t
    → p.status ≡ pay_pending
    → t.status ≡ payment_pending
    → if is_full db && not db.hackathon.waitlist_enabled
      then verify actor pk db ≡ err no_seats
      else Returns
          (λ p' db'.
            (p' ≡ reviewed p pay_verified (some actor.pk) (some db.now) "")
            × (db'.payments ≡ update (λ q. q.pk == p.pk) (λ _. p') db.payments)
            × (first (λ x. x.pk == t.pk) db'.teams ≡ some (placed_team t db))
            × (db'.members ≡ db.members))
          (verify actor pk db)
unfolding verify save_payment recompute_status save_status seat_or_no_seats should_waitlist_new_team
verify_pending actor pk p t db l f e g =
    let placed = λ (s : TeamStatus). record t { status = s; is_waitlisted = is_full db } in
    let rows = update (λ x. x.pk == t.pk) (λ _. placed forming) db.teams in
    ground (
      arith,
      exists_of_first (λ x. x.pk == t.pk) db.teams t f,
      first-save team_key (placed forming) t.pk db.teams,
      first-save team_key (placed registered) t.pk rows,
      exists-save team_key (placed forming) t.pk db.teams,
    )

-- The payment `pk` is decided, and its team is there.
record IsDecided (pk : ℕ) (db : Db) : Type 0 where
  payment : TeamPayment
  found : first (λ q. q.pk == pk) db.payments ≡ some payment
  decided : is_pay_pending payment.status ≡ false
  team : Team
  of : payment.team ≡ some team.pk
  there : first (λ x. x.pk == team.pk) db.teams ≡ some team
