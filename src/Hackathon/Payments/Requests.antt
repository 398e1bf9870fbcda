-- ===== src/Hackathon/Payments/Requests.antt =====
-- Sequences of requests on payments (apps/hackathons/payments.py) and of status changes.
use srkrcc_main_application.Common.{
  squeeze, ℕ, ◌≡◌, refl, Bool, Option, none, some, List, [], ◌∷◌, arith, ◌==◌, first, Option-cases,
  ==→eq, inl, inr, Python, String,
}
use srkrcc_main_application.Common.Rows.Laws.{update_twice, first_holds, first_key}
use srkrcc_main_application.Hackathon.Model.{
  User, Team, TeamPayment, TeamStatus, pay_pending, pay_verified, pay_rejected, pay_cancelled,
  pay_removed, forming, registered, payment_pending, payment_rejected,
}
use srkrcc_main_application.Hackathon.Monad.{Db, Result, ok, err}
use srkrcc_main_application.Hackathon.Outcome.{Ensures, Result-cases}
use srkrcc_main_application.Hackathon.Registration.Capacity.{should_waitlist_new_team}
use srkrcc_main_application.Hackathon.Team.{recompute_status, save_status}
use srkrcc_main_application.Hackathon.Team.Admin.{admin_set_status, reason_for}
use srkrcc_main_application.Hackathon.Withdrawals.{close_pending}
use srkrcc_main_application.Hackathon.Payments.{
  lock_payment, save_payment, delete_team, cancel_pending, payment_of, verify, reopen, remove,
  reject, seat_or_no_seats, reviewed,
}
use srkrcc_main_application.Hackathon.Payments.Invariant.{
  IsConsistent, IsConsistent-save, IsConsistent-drop, IsConsistent-set, payment_found, team_key,
}

-- What a successful lock has found.
pub lock_payment_ok :
    (actor : User) (pk : ℕ) (p : TeamPayment) (t : Team) (db db' : Db)
    → lock_payment actor pk db ≡ ok ((p, t), db')
    → (db' ≡ db)
      × (first (λ q. q.pk == pk) db.payments ≡ some p)
      × (p.pk ≡ pk)
      × (p.team ≡ some t.pk)
      × (first (λ x. x.pk == t.pk) db.teams ≡ some t)
unfolding lock_payment
lock_payment_ok actor pk p t db db' h = elim (Option-cases (first (λ q. q.pk == pk) db.payments)) [
  | inl n ↦ absurd (ground arith)
  | inr (q, n) ↦ elim (Option-cases q.team) [
    | inl m ↦ absurd (ground arith)
    | inr (k, m) ↦ elim (Option-cases (first (λ x. x.pk == k) db.teams)) [
      | inl o ↦ absurd (ground arith)
      | inr (x, o) ↦
          let key = ==→eq x.pk k (first_holds (λ x. x.pk == k) db.teams x o) in
          let there = first_key team_key k db.teams x o in
          ground (arith, key, there, ==→eq q.pk pk (first_holds (λ q. q.pk == pk) db.payments q n))
    ]
  ]
]

reopen-IsConsistent :
    (actor : User) (pk : ℕ) (db : Db)
    → IsConsistent db.teams db.payments
    → Ensures (λ _ db'. IsConsistent db'.teams db'.payments) (reopen actor pk db)
unfolding reopen save_payment
reopen-IsConsistent actor pk db c = elim (Result-cases (lock_payment actor pk db)) [
  | inl (x, e) ↦ ground arith
  | inr (((p, t), db'), e) ↦
      let facts = lock_payment_ok actor pk p t db db' e in
      ground (
        arith,
        IsConsistent-save p (reviewed p pay_pending none none "")
            (record t { status = payment_pending }) db.teams db.payments c,
      )
]

seat_unchanged : (seat : Bool) (db db' : Db) → seat_or_no_seats db ≡ ok (seat, db') → db' ≡ db
unfolding seat_or_no_seats should_waitlist_new_team
seat_unchanged seat db db' h = ground arith

reject-IsConsistent :
    (py : Python) (actor : User) (pk : ℕ) (reason : String) (db : Db)
    → IsConsistent db.teams db.payments
    → Ensures (λ _ db'. IsConsistent db'.teams db'.payments) (reject py actor pk reason db)
unfolding reject save_payment
reject-IsConsistent py actor pk reason db c = elim (Result-cases (lock_payment actor pk db)) [
  | inl (x, e) ↦ ground arith
  | inr (((p, t), db'), e) ↦
      let facts = lock_payment_ok actor pk p t db db' e in
      ground (
        arith,
        IsConsistent-save p (reviewed p pay_rejected (some actor.pk) (some db.now) (squeeze reason))
            (record t { status = payment_rejected }) db.teams db.payments c,
      )
]

abbrev placed_as : Team → Bool → TeamStatus → Team
placed_as t seat status = record t { status = status; is_waitlisted = seat }

verify-IsConsistent :
    (actor : User) (pk : ℕ) (db : Db)
    → IsConsistent db.teams db.payments
    → Ensures (λ _ db'. IsConsistent db'.teams db'.payments) (verify actor pk db)
unfolding verify save_payment recompute_status save_status
verify-IsConsistent actor pk db c = elim (Result-cases (lock_payment actor pk db)) [
  | inl (x, e) ↦ ground arith
  | inr (((p, t), db'), e) ↦
      let facts = lock_payment_ok actor pk p t db db' e in
      elim (Result-cases (seat_or_no_seats db')) [
        | inl (x, s) ↦ ground arith
        | inr ((seat, db''), s) ↦
            let same = seat_unchanged seat db' db'' s in
            let done = reviewed p pay_verified (some actor.pk) (some db.now) "" in
            ground (
              arith,
              IsConsistent-save p done (placed_as t seat forming) db.teams db.payments c,
              IsConsistent-save p done (placed_as t seat registered) db.teams db.payments c,
              update_twice team_key (placed_as t seat forming) (placed_as t seat registered)
                  db.teams,
            )
      ]
]

remove-IsConsistent :
    (actor : User) (pk : ℕ) (db : Db)
    → IsConsistent db.teams db.payments
    → Ensures (λ _ db'. IsConsistent db'.teams db'.payments) (remove actor pk db)
unfolding remove save_payment delete_team
remove-IsConsistent actor pk db c = elim (Result-cases (lock_payment actor pk db)) [
  | inl (x, e) ↦ ground arith
  | inr (((p, t), db'), e) ↦
      let facts = lock_payment_ok actor pk p t db db' e in
      ground (
        arith,
        IsConsistent-drop p
            (record p {
              status = pay_removed;
              reviewed_by = some actor.pk;
              reviewed_at = some db.now;
            })
            t.pk db.teams db.payments c,
      )
]

cancel_pending-IsConsistent :
    (team : ℕ) (actor : User) (db : Db)
    → IsConsistent db.teams db.payments
    → Ensures (λ _ db'. IsConsistent db'.teams db'.payments) (cancel_pending team actor db)
unfolding cancel_pending save_payment delete_team
cancel_pending-IsConsistent team actor db c =
    elim (Option-cases (first (λ t. t.pk == team) db.teams)) [
      | inl e ↦ ground arith
      | inr (t, e) ↦ elim (Option-cases (payment_of db.payments t.pk)) [
        | inl f ↦ ground arith
        | inr (p, f) ↦ ground (
          arith,
          payment_found t.pk p db.payments c.payment_keys f,
          IsConsistent-drop p (record p { status = pay_cancelled; reviewed_at = some db.now }) t.pk
              db.teams db.payments c,
        )
      ]
    ]

set_status-IsConsistent :
    (py : Python) (team : ℕ) (actor : User) (status : Option TeamStatus) (reason : String) (db : Db)
    → IsConsistent db.teams db.payments
    → Ensures
        (λ _ db'. IsConsistent db'.teams db'.payments)
        (admin_set_status py team actor status reason db)
unfolding admin_set_status recompute_status save_status close_pending
set_status-IsConsistent py team actor none reason db c = ground arith
set_status-IsConsistent py team actor (some status) reason db c =
    elim (Option-cases (first (λ t. t.pk == team) db.teams)) [
      | inl e ↦ ground arith
      | inr (t, e) ↦
          let set = λ (new : TeamStatus). record t {
            status = new;
            status_reason = reason_for py status reason;
          } in
          let found = first_key team_key team db.teams t e in
          ground (
            arith,
            IsConsistent-set t (set status) db.teams db.payments c found refl,
            IsConsistent-set t (set forming) db.teams db.payments c found refl,
            IsConsistent-set t (set registered) db.teams db.payments c found refl,
            update_twice team_key (set status) (set forming) db.teams,
            update_twice team_key (set status) (set registered) db.teams,
          )
    ]

-- What the organizers' pages and the leader ask for.
pub data PaymentRequest : Type 0 where
  verify_payment : User → ℕ → PaymentRequest
  reject_payment : User → ℕ → String → PaymentRequest
  reopen_payment : User → ℕ → PaymentRequest
  remove_team : User → ℕ → PaymentRequest
  cancel_team : ℕ → User → PaymentRequest
  set_status : ℕ → User → Option TeamStatus → String → PaymentRequest

-- The rows after a request in `transaction.atomic`: a raise rolls it back.
abbrev pub committed : {A : Type 0} → Result (A × Db) → Db → Db
committed (ok (a, db')) db = db'
committed (err e) db = db

pub handle : Python → PaymentRequest → Db → Db
handle py (verify_payment actor pk) db = committed (verify actor pk db) db
handle py (reject_payment actor pk reason) db = committed (reject py actor pk reason db) db
handle py (reopen_payment actor pk) db = committed (reopen actor pk db) db
handle py (remove_team actor pk) db = committed (remove actor pk db) db
handle py (cancel_team team actor) db = committed (cancel_pending team actor db) db
handle py (set_status team actor status reason) db =
    committed (admin_set_status py team actor status reason db) db

pub handle_all : Python → List PaymentRequest → Db → Db
handle_all py [] db = db
handle_all py (r ∷ rs) db = handle_all py rs (handle py r db)

committed_keeps :
    {A : Type 0} (P : Db → Type 0) (r : Result (A × Db)) (db : Db)
    → Ensures (λ _ db'. P db') r
    → P db
    → P (committed r db)
committed_keeps P (ok (a, db')) db h k = h
committed_keeps P (err e) db h k = k

abbrev pub IsConsistentDb : Db → Type 0
IsConsistentDb db = IsConsistent db.teams db.payments

handle-IsConsistent :
    (py : Python) (r : PaymentRequest) (db : Db)
    → IsConsistentDb db
    → IsConsistentDb (handle py r db)
unfolding handle
handle-IsConsistent py (verify_payment actor pk) db c =
    committed_keeps IsConsistentDb _ db (verify-IsConsistent actor pk db c) c
handle-IsConsistent py (reject_payment actor pk reason) db c =
    committed_keeps IsConsistentDb _ db (reject-IsConsistent py actor pk reason db c) c
handle-IsConsistent py (reopen_payment actor pk) db c =
    committed_keeps IsConsistentDb _ db (reopen-IsConsistent actor pk db c) c
handle-IsConsistent py (remove_team actor pk) db c =
    committed_keeps IsConsistentDb _ db (remove-IsConsistent actor pk db c) c
handle-IsConsistent py (cancel_team team actor) db c =
    committed_keeps IsConsistentDb _ db (cancel_pending-IsConsistent team actor db c) c
handle-IsConsistent py (set_status team actor status reason) db c =
    committed_keeps IsConsistentDb _ db (set_status-IsConsistent py team actor status reason db c) c

-- From consistent rows, any sequence of payment reviews (verify, reject, reopen, remove), leaders'
-- cancellations and organizers' status changes, whether each succeeds or is refused, ends in
-- consistent rows: a team is PAYMENT_PENDING or PAYMENT_REJECTED exactly when its payment is PENDING
-- or REJECTED, and keys stay unique.
pub handle_all-IsConsistent :
    (py : Python) (rs : List PaymentRequest) (db : Db)
    → IsConsistent db.teams db.payments
    → IsConsistent (handle_all py rs db).teams (handle_all py rs db).payments
unfolding handle_all
handle_all-IsConsistent py [] db c = c
handle_all-IsConsistent py (r ∷ rs) db c =
    handle_all-IsConsistent py rs (handle py r db) (handle-IsConsistent py r db c)
