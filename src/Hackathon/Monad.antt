-- ===== src/Hackathon/Monad.antt =====
-- The database of one hackathon, and a request against it: every entry point runs in
-- `transaction.atomic`, so an exception leaves the rows as they were and carries no state.
use srkrcc_main_application.Common.{ℕ, suc, Bool, true, false, Option, none, some, List, append}
use srkrcc_main_application.Hackathon.Model.{
  Hackathon, User, Staff, Team, TeamMember, TeamInvite, TeamEmailInvite, TeamJoinRequest,
  WithdrawalRequest, TeamAllowance, TeamPayment, ProblemStatement, IdeaFile,
}

-- The machine-readable `code` of `HackathonError`, and the other exceptions that handlers raise.
pub data Error : Type 0 where
  permission_denied does_not_exist : Error
  registration_closed team_inactive team_unpaid team_edits_locked profile_incomplete : Error
  not_eligible answer_required answer_too_long answer_invalid rules_not_accepted : Error
  hackathon_full already_in_team team_full name_required name_too_long name_taken : Error
  user_not_found cannot_invite email_invalid account_exists invite_not_pending : Error
  not_a_member cannot_remove_leader leader_must_transfer invalid_status use_payments : Error
  team_limit_reached withdraw_cooldown reason_required withdrawal_pending withdrawal_locked : Error
  withdrawal_closed no_withdrawal_pending already_decided team_not_empty : Error
  payment_not_required not_found invalid file_not_found transaction_reused not_pending : Error
  problem_not_available problem_full problem_required problem_conflict : Error
  open_innovation_disabled open_innovation_incomplete open_innovation_too_long : Error
  problems_not_revealed upload_storage_error conflict : Error
  payment_already_handled no_seats not_rejected already_placed limit_reached : Error
  evaluation_not_closed uncaught shortlist_limit results_published nothing_selected : Error
  already_published not_custom : Error

-- The `action` of an audit record.
pub data AuditAction : Type 0 where
  created_team invited_member invited_by_email cancelled_email_invite cancelled_invite : AuditAction
  joined_team declined_invite removed_member left_team transferred_leadership : AuditAction
  admin_added_member admin_changed_status promoted_team withdrew_team : AuditAction
  requested_withdrawal approved_withdrawal denied_withdrawal : AuditAction
  cancelled_unpaid verified_payment rejected_payment reopened_payment removed_unpaid : AuditAction
  added_staff changed_staff_permissions removed_staff : AuditAction

-- Which lifecycle email or celebration card.
pub data TeamEvent : Type 0 where
  team_created team_registered member_joined member_left member_removed status_changed : TeamEvent
  waitlist_promoted team_gone : TeamEvent

-- What a request leaves for the world outside the rows, in order. `promote` is the hook that
-- `WaitlistService.promote_after_commit` registers.
pub data Effect : Type 0 where
  audit : Option ℕ → AuditAction → ℕ → Effect
  email : TeamEvent → ℕ → Effect
  celebrate : TeamEvent → ℕ → Effect
  notify : List ℕ → ℕ → Effect
  invite_email : ℕ → Effect
  email_invite_email : ℕ → Effect
  resolve_notification : ℕ → Effect
  release_files : ℕ → Effect
  promote : Effect

pub record Db : Type 0 where
  pub now : ℕ  -- `timezone.now()`
  pub next_pk : ℕ
  pub hackathon : Hackathon
  pub users : List User
  pub staff : List Staff
  pub teams : List Team
  pub members : List TeamMember
  pub invites : List TeamInvite
  pub email_invites : List TeamEmailInvite
  pub join_requests : List TeamJoinRequest
  pub withdrawals : List WithdrawalRequest
  pub allowances : List TeamAllowance
  pub payments : List TeamPayment
  pub files : List IdeaFile
  pub problem_statements : List ProblemStatement
  pub round_entries : List ℕ  -- the team of each `RoundEntry`
  pub check_ins : List ℕ  -- the team of each `CheckIn`
  pub effects : List Effect

pub data Result {ℓ} (A : Type ℓ) : Type ℓ where
  ok : A → Result A
  err : Error → Result A

abbrev pub Action : Type 0 → Type 0
Action A = Db → Result (A × Db)

infixl 5 ◌>>=◌ ◌>>◌
abbrev pub ◌>>=◌ : {A B : Type 0} → Action A → (A → Action B) → Action B
◌>>=◌ m f db = elim (m db) [ ok (a, db') ↦ f a db' | err e ↦ err e ]

abbrev pub ◌>>◌ : {A B : Type 0} → Action A → Action B → Action B
m >> k = m >>= λ _. k

abbrev pub pure : {A : Type 0} → A → Action A
pure a db = ok (a, db)

abbrev pub raise : {A : Type 0} → Error → Action A
raise e db = err e

-- `if c: raise e`
abbrev pub raise_if : Bool → Error → Action (Unit {0})
raise_if true e db = err e
raise_if false e db = ok (tt, db)

abbrev pub gets : {A : Type 0} → (Db → A) → Action A
gets f db = ok (f db, db)

abbrev pub modify : (Db → Db) → Action (Unit {0})
modify f db = ok (tt, f db)

-- `if c: m`
abbrev pub when : Bool → Action (Unit {0}) → Action (Unit {0})
when true m = m
when false m = pure tt

-- `if x is None: raise e`
abbrev pub or_raise : {A : Type 0} → Option A → Error → Action A
or_raise none e db = err e
or_raise (some a) e db = ok (a, db)

abbrev pub emit : Effect → Action (Unit {0})
emit e db = ok (tt, record db { effects = append db.effects e })

-- A fresh primary key.
abbrev pub fresh : Action ℕ
fresh db = ok (db.next_pk, record db { next_pk = suc db.next_pk })
