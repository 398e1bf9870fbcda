-- ===== src/Hackathon/Payments.antt =====
-- apps/hackathons/payments.py: the fee paid when a team registers, and its check by an organizer.
pub mod Rows
pub mod Invariant
pub mod Requests
pub mod Review
pub mod Stranded
use srkrcc_main_application.Common.{
  len, squash, squeeze, ℕ, String, Bool, true, false, not, ◌&&◌, ◌||◌, Option, none, some, List, [],
  ◌∷◌, ◌==◌, ltb, is_at, str_eq, exists, first, update, delete, append, map, select, is_some,
  if◌then◌else◌, Python,
}
use srkrcc_main_application.Hackathon.Model.{
  PaymentStage, no_fee, registration, idea, forming, payment_pending, payment_rejected,
  PaymentStatus, pay_pending, pay_verified, pay_rejected, pay_cancelled, pay_removed, User,
  Hackathon, Team, TeamPayment, IdeaFile, is_forming, is_unpaid, is_payment_pending,
  is_payment_rejected, is_pay_pending, is_pay_rejected, is_pay_verified, is_pay_closed,
}
use srkrcc_main_application.Hackathon.Monad.{
  Db, ok, err, Action, ◌>>=◌, ◌>>◌, pure, raise_if, modify, when, or_raise, emit, fresh, audit,
  email, notify, release_files, team_created, cancelled_unpaid, verified_payment, rejected_payment,
  reopened_payment, removed_unpaid, permission_denied, not_found, invalid, file_not_found,
  transaction_reused, not_pending, payment_already_handled, no_seats, not_rejected, already_placed,
  upload_storage_error, does_not_exist,
}
use srkrcc_main_application.Hackathon.Store.{is_team_organizer, lock_team, save_team, is_leader}
use srkrcc_main_application.Hackathon.Registration.{RegistrationData}
use srkrcc_main_application.Hackathon.Registration.Capacity.{should_waitlist_new_team}
use srkrcc_main_application.Hackathon.Team.{recompute_status}
use srkrcc_main_application.Hackathon.Withdrawals.{organizers_to_tell}

abbrev pub max_transaction_id : ℕ
max_transaction_id = 60

abbrev pub max_reason : ℕ
max_reason = 300

abbrev pub at_registration : PaymentStage → Bool
at_registration registration = true
at_registration no_fee = false
at_registration idea = false

-- Whether creating a team means paying a fee first.
unfoldable pub required : Hackathon → Bool
required h = at_registration h.payment_stage && not (h.idea_fee_amount == 0)

unfoldable pub payment_of : List TeamPayment → ℕ → Option TeamPayment
payment_of rows team = first (λ p. is_at p.team team) rows

unfoldable pub save_payment : TeamPayment → Action (Unit {0})
save_payment payment =
    modify
      λ db. record db { payments = update (λ p. p.pk == payment.pk) (λ _. payment) db.payments }

-- `team.delete()`: its memberships, invites, requests and files go with it; a payment
-- outlives it, without its team and its screenshot (which is one of the team's files).
unfoldable pub delete_team : ℕ → Action (Unit {0})
delete_team team = modify λ db. record db {
  teams = delete (λ t. t.pk == team) db.teams;
  members = delete (λ m. m.team == team) db.members;
  invites = delete (λ i. i.team == team) db.invites;
  email_invites = delete (λ i. i.team == team) db.email_invites;
  join_requests = delete (λ r. r.team == team) db.join_requests;
  withdrawals = delete (λ r. r.team == team) db.withdrawals;
  files = delete (λ f. is_at f.team team) db.files;
  payments =
      update (λ p. is_at p.team team) (λ p. record p { team = none; screenshot = none })
        db.payments;
  round_entries = delete (λ t. t == team) db.round_entries;
  check_ins = delete (λ t. t == team) db.check_ins;
}

-- `_locked`
unfoldable pub lock_payment : User → ℕ → Action (TeamPayment × Team)
lock_payment actor pk db =
    (do
      raise_if (not (is_team_organizer db actor)) permission_denied
      payment ← or_raise (first (λ p. p.pk == pk) db.payments) not_found
      team_pk ← or_raise (payment.team) not_found
      team ← lock_team team_pk
      pure (payment, team))
      db

-- `except HackathonError: raise HackathonError(..., 'NO_SEATS')`
unfoldable pub seat_or_no_seats : Action Bool
seat_or_no_seats db = elim (should_waitlist_new_team db) [ ok r ↦ ok r | err e ↦ err no_seats ]

-- The fields that `verify` and `reject` write.
abbrev pub reviewed : TeamPayment → PaymentStatus → Option ℕ → Option ℕ → String → TeamPayment
reviewed payment status by at reason = record payment {
  status = status;
  reviewed_by = by;
  reviewed_at = at;
  reason = reason;
}

abbrev pub leader_list : Team → List ℕ
leader_list team = elim (team.leader) [ none ↦ [] | some u ↦ u ∷ [] ]

unfoldable pub verify : User → ℕ → Action TeamPayment
verify actor pk db =
    (do
      locked ← lock_payment actor pk
      let payment = locked.0
      let team = locked.1
      raise_if (not (is_pay_pending payment.status) || not (is_payment_pending team.status))
          payment_already_handled
      waitlisted ← seat_or_no_seats
      let payment' = reviewed payment pay_verified (some actor.pk) (some db.now) ""
      save_payment payment'
      let team' = record team { status = forming; is_waitlisted = waitlisted }
      save_team team'
      recomputed ← recompute_status team'
      when (is_forming recomputed.0.status) (emit (email team_created team.pk))
      emit (audit (some actor.pk) verified_payment team.pk)
      emit (notify (leader_list team) team.pk)
      pure payment')
      db

unfoldable pub reopen : User → ℕ → Action TeamPayment
reopen actor pk db =
    (do
      locked ← lock_payment actor pk
      let payment = locked.0
      let team = locked.1
      raise_if (not (is_pay_rejected payment.status) || not (is_payment_rejected team.status))
          not_rejected
      let payment' = reviewed payment pay_pending none none ""
      save_payment payment'
      save_team (record team { status = payment_pending })
      emit (audit (some actor.pk) reopened_payment team.pk)
      emit (notify (leader_list team) team.pk)
      pure payment')
      db

unfoldable pub remove : User → ℕ → Action (Unit {0})
remove actor pk db =
    (do
      locked ← lock_payment actor pk
      let payment = locked.0
      let team = locked.1
      raise_if (is_pay_verified payment.status || not (is_unpaid team.status)) already_placed
      emit (audit (some actor.pk) removed_unpaid team.pk)
      save_payment (record payment {
        status = pay_removed;
        reviewed_by = some actor.pk;
        reviewed_at = some db.now;
      })
      emit (release_files team.pk)
      delete_team team.pk
      emit (notify (leader_list team) team.pk))
      db

-- `cancel_pending`: the leader withdraws a team that still waits for its payment check.
unfoldable pub cancel_pending : ℕ → User → Action (Unit {0})
cancel_pending team_pk actor db =
    (do
      team ← lock_team team_pk
      raise_if (not (is_leader team actor)) permission_denied
      raise_if (not (is_payment_pending team.status)) not_pending
      payment ← or_raise (payment_of db.payments team.pk) does_not_exist
      emit (audit (some actor.pk) cancelled_unpaid team.pk)
      save_payment (record payment { status = pay_cancelled; reviewed_at = some db.now })
      emit (release_files team.pk)
      delete_team team.pk)
      db

-- `reviewers`: the staff who may check payments, or the site's admins where there are none.
unfoldable pub reviewers : Db → List ℕ
reviewers db = elim (organizers_to_tell db) [
  | [] ↦ map (λ u. u.pk) (select (λ u. u.site_admin) db.users)
  | user ∷ rest ↦ user ∷ rest
]

module _ (py : Python) where
  unfoldable pub reject : User → ℕ → String → Action TeamPayment
  reject actor pk reason db =
      (do
        locked ← lock_payment actor pk
        let payment = locked.0
        let team = locked.1
        raise_if (not (is_pay_pending payment.status) || not (is_payment_pending team.status))
            payment_already_handled
        raise_if (ltb max_reason (len (squeeze reason))) invalid
        let payment' = reviewed payment pay_rejected (some actor.pk) (some db.now) (squeeze reason)
        save_payment payment'
        save_team (record team { status = payment_rejected })
        emit (audit (some actor.pk) rejected_payment team.pk)
        emit (notify (leader_list team) team.pk)
        pure payment')
        db

  -- `payment_key`
  abbrev pub payment_key : String → String
  payment_key transaction_id = py.lower (squash transaction_id)

  -- Whether the same payment was sent before: a retry after a dropped connection.
  unfoldable pub existing_submission : User → RegistrationData → Db → Option Team
  existing_submission user data' db =
      let key = payment_key data'.transaction_id in
      elim (first
        (λ t.
          is_at t.leader user.pk
          && is_payment_pending t.status
          && elim (payment_of db.payments t.pk) [
            | none ↦ false
            | some p ↦ p.submitted_by == user.pk
          ])
        db.teams) [
          | none ↦ none
          | some team ↦ elim (payment_of db.payments team.pk) [
            | none ↦ none
            | some p ↦
                if not (str_eq key "") && str_eq p.transaction_key key then some team else none
          ]
        ]

  -- `TeamPayment.objects.filter(transaction_key=key).exclude(status__in=CLOSED_STATUSES).exists()`
  abbrev pub is_reused : List TeamPayment → String → Bool
  is_reused rows key =
      exists (λ p. str_eq p.transaction_key key && not (is_pay_closed p.status)) rows

  -- The screenshot and the transaction id that a new team's leader must give.
  unfoldable pub clean_submission : User → RegistrationData → Action (IdeaFile × String)
  clean_submission user data' db =
      let reference = squeeze data'.transaction_id in
      (do
        raise_if (str_eq reference "") invalid
        raise_if (ltb max_transaction_id (len reference)) invalid
        file_pk ← or_raise (data'.payment_file_id) invalid
        file ←
            or_raise
              (first
                (λ f.
                  f.pk == file_pk
                  && not (is_some f.team)
                  && f.uploader == user.pk
                  && f.uploaded
                  && not f.attached)
                db.files)
              file_not_found
        raise_if (is_reused db.payments (payment_key reference)) transaction_reused
        pure (file, reference))
        db

  -- Record the payment of a team that was just created, and make its screenshot permanent.
  unfoldable pub attach_payment : Team → User → IdeaFile → String → Action TeamPayment
  attach_payment team user file reference db =
      (do
        pk ← fresh
        let payment : TeamPayment = record {
          pk = pk;
          team = some team.pk;
          submitted_by = user.pk;
          amount = db.hackathon.idea_fee_amount;
          transaction_id = reference;
          transaction_key = payment_key reference;
          screenshot = some file.pk;
          status = pay_pending;
          reason = "";
          reviewed_by = none;
          reviewed_at = none;
        }
        raise_if (is_reused db.payments (payment_key reference)) transaction_reused
        modify (λ s. record s { payments = append s.payments payment })
        raise_if (not (py.storage_copy file.pk)) upload_storage_error
        modify (λ s. record s {
          files =
              update (λ f. f.pk == file.pk)
                (λ f. record f { team = some team.pk; uploaded = false; attached = true }) s.files;
        })
        pure payment)
        db
