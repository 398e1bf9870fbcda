-- ===== src/Hackathon/Payments/Stranded.antt =====
-- Leaving a team that waits for its payment check: apps/hackathons/services.py and payments.py.
use srkrcc_main_application.Common.{
  ℕ, ◌≡◌, String, true, false, none, some, ◌==◌, arith, is_at, first, ◌⊎◌, inl, inr, ◌∙◌, ap, sym,
  subst, Python,
}
use srkrcc_main_application.Common.Rows.Laws.{first_overwritten, first_key}
use srkrcc_main_application.Hackathon.Model.{
  User, Team, TeamPayment, withdrawn, is_payment_pending, is_pay_pending,
}
use srkrcc_main_application.Hackathon.Monad.{
  Db, ok, err, payment_already_handled, already_placed, not_rejected,
}
use srkrcc_main_application.Hackathon.Outcome.{Result-cases}
use srkrcc_main_application.Hackathon.Store.{is_team_organizer}
use srkrcc_main_application.Hackathon.Team.{require_registration_open, require_team_editable}
use srkrcc_main_application.Hackathon.Team.Members.{leave_team}
use srkrcc_main_application.Hackathon.Withdrawals.{withdraw}
use srkrcc_main_application.Hackathon.Withdrawals.Leaving.{GivenUp, withdraw_lem}
use srkrcc_main_application.Hackathon.Payments.{lock_payment, verify, reject, reopen, remove}

require_team_editable_ok :
    (t : Team) (u : User) (x : Unit {0}) (db db' : Db)
    → require_team_editable t u db ≡ ok (x, db')
    → (db' ≡ db) × ((is_payment_pending t.status ≡ false) ⊎ (is_team_organizer db u ≡ true))
unfolding require_team_editable require_registration_open
require_team_editable_ok t u x db db' h = ground arith

leave_team-GivenUp :
    (py : Python) (pk : ℕ) (u : User) (reason : String) (t t' : Team) (db db' : Db)
    → first (λ x. x.pk == pk) db.teams ≡ some t
    → is_at t.leader u.pk ≡ true
    → leave_team py pk u reason db ≡ ok ((t', none), db')
    → GivenUp t u.pk db t' db'
unfolding leave_team
leave_team-GivenUp py pk u reason t t' db db' found leads h =
    elim (Result-cases (require_team_editable t u db)) [
      | inl (e, p) ↦ absurd (ground arith)
      | inr ((x, s), p) ↦
          let same = (require_team_editable_ok t u x db s p).0 in
          let w : withdraw py t u.pk reason db ≡ ok ((t', none), db') = ground (arith, same) in
          ground (arith, withdraw_lem py t t' u.pk reason none db db' w)
    ]

leave_team_allowed :
    (py : Python) (pk : ℕ) (u : User) (reason : String) (t t' : Team) (db db' : Db)
    → first (λ x. x.pk == pk) db.teams ≡ some t
    → is_payment_pending t.status ≡ true
    → leave_team py pk u reason db ≡ ok ((t', none), db')
    → is_team_organizer db u ≡ true
unfolding leave_team
leave_team_allowed py pk u reason t t' db db' found waits h =
    elim (Result-cases (require_team_editable t u db)) [
      | inl (e, p) ↦ absurd (ground arith)
      | inr ((x, s), p) ↦ ground (arith, (require_team_editable_ok t u x db s p).1)
    ]

GivenUp-found :
    (t t' : Team) (pk user : ℕ) (db db' : Db)
    → first (λ x. x.pk == pk) db.teams ≡ some t
    → GivenUp t user db t' db'
    → first (λ x. x.pk == t'.pk) db'.teams ≡ some t'
GivenUp-found t t' pk user db db' found g =
    subst (λ k. first (λ x. x.pk == k) db'.teams ≡ some t') (sym g.key)
      (rw g.rows (
        first_overwritten (λ (x : Team). x.pk) t.pk t' t db.teams
          (first_key (λ (x : Team). x.pk) pk db.teams t found) g.key))

-- Why the review of `payment` cannot go on: every step an organizer has refuses it.
pub record Stranded (py : Python) (actor : User) (pk : ℕ) (reason : String) (db : Db) : Type 0 where
  pub verify_refused : verify actor pk db ≡ err payment_already_handled
  pub reject_refused : reject py actor pk reason db ≡ err payment_already_handled
  pub reopen_refused : reopen actor pk db ≡ err not_rejected
  pub remove_refused : remove actor pk db ≡ err already_placed

withdrawn-Stranded :
    (py : Python) (actor : User) (reason : String) (t : Team) (p : TeamPayment) (pk : ℕ) (db : Db)
    → is_team_organizer db actor ≡ true
    → first (λ q. q.pk == pk) db.payments ≡ some p
    → p.team ≡ some t.pk
    → is_pay_pending p.status ≡ true
    → first (λ x. x.pk == t.pk) db.teams ≡ some t
    → t.status ≡ withdrawn
    → Stranded py actor pk reason db
unfolding verify reject reopen remove lock_payment
withdrawn-Stranded py actor reason t p pk db allowed payment of pending team status = record {
  verify_refused = ground arith;
  reject_refused = ground arith;
  reopen_refused = ground arith;
  remove_refused = ground arith;
}

-- An organizer of the teams who leads a team that waits for its payment check may leave it, since no
-- guard on edits applies to them. Where that gives the team up, its payment stays pending, and in the
-- rows that this leaves each step of its review, by any organizer, is refused.
pub leave_team-Stranded :
    (py : Python) (pk : ℕ) (u actor : User) (reason note : String) (t t' : Team) (p : TeamPayment)
    (db db' : Db)
    → first (λ x. x.pk == pk) db.teams ≡ some t
    → is_at t.leader u.pk ≡ true
    → is_payment_pending t.status ≡ true
    → first (λ q. q.pk == p.pk) db.payments ≡ some p
    → p.team ≡ some t.pk
    → is_pay_pending p.status ≡ true
    → is_team_organizer db' actor ≡ true
    → leave_team py pk u reason db ≡ ok ((t', none), db')
    → (is_team_organizer db u ≡ true)
      × (first (λ q. q.pk == p.pk) db'.payments ≡ some p)
      × Stranded py actor p.pk note db'
leave_team-Stranded py pk u actor reason note t t' p db db' found leads waits payment of pending
      allowed h =
    let g = leave_team-GivenUp py pk u reason t t' db db' found leads h in
    let kept : first (λ q. q.pk == p.pk) db'.payments ≡ some p =
      ground (arith, g.payments, payment) in
    (
      leave_team_allowed py pk u reason t t' db db' found waits h,
      kept,
      withdrawn-Stranded py actor note t' p p.pk db' allowed kept (of ∙ ap some (sym g.key)) pending
          (GivenUp-found t t' pk u.pk db db' found g) g.status,
    )
