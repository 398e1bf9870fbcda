-- ===== src/Hackathon/Model.antt =====
-- apps/hackathons/models.py: the rows of one hackathon and the choices of their fields. A date-time
-- is a number of seconds; a nullable column is an `Option`; a text choice is a constructor.
use srkrcc_main_application.Common.{ℕ, String, Bool, true, false, Option, List}

pub data HackathonStatus : Type 0 where
  draft live closed : HackathonStatus

pub data PaymentStage : Type 0 where
  no_fee registration idea : PaymentStage

pub data WithdrawalPolicy : Type 0 where
  instant approval locked : WithdrawalPolicy

pub data TeamStatus : Type 0 where
  forming registered disqualified withdrawn payment_pending payment_rejected : TeamStatus

pub data TeamRole : Type 0 where
  leader_role member_role : TeamRole

pub data InviteStatus : Type 0 where
  invite_pending invite_accepted invite_declined invite_cancelled : InviteStatus

pub data EmailInviteStatus : Type 0 where
  email_pending email_claimed email_cancelled : EmailInviteStatus

pub data JoinRequestStatus : Type 0 where
  join_pending join_accepted join_declined join_cancelled : JoinRequestStatus

pub data WithdrawalStatus : Type 0 where
  request_pending request_approved request_denied request_cancelled : WithdrawalStatus

pub data PaymentStatus : Type 0 where
  pay_pending pay_verified pay_rejected pay_cancelled pay_removed : PaymentStatus

pub data StaffRole : Type 0 where
  organizer judge volunteer : StaffRole

-- `access.PERMISSIONS`
pub data Permission : Type 0 where
  settings content teams rounds ideas submissions judging judge_projects results : Permission
  check_in insights staff : Permission

-- One JSON value of a request body: `other` is a number, list or object, by its truth value and
-- its rendering by Python's `str`.
pub data Raw : Type 0 where
  null : Raw
  flag : Bool → Raw
  text : String → Raw
  other : Bool → String → Raw

-- A cleaned answer: a ticked box or a text.
pub data Answer : Type 0 where
  ticked : Answer
  answer : String → Answer

pub data QuestionType : Type 0 where
  checkbox_question text_question select_question number_question url_question : QuestionType

pub record Question : Type 0 where
  pub key : String
  pub label : String
  pub kind : QuestionType
  pub required : Bool
  pub options : List String

-- An account. `profile` is `PROFILE_FIELD_GETTERS`: the value under a key, "" when it is not filled
-- in.
pub record User : Type 0 where
  pub pk : ℕ
  pub email : String
  pub site_organizer : Bool  -- `_is_admin_or_club_lead`
  pub site_admin : Bool  -- role ADMIN and active
  pub profile : String → String

pub record Staff : Type 0 where
  pub pk : ℕ
  pub user : ℕ
  pub role : StaffRole
  pub permissions : List Permission
  pub added_by : Option ℕ

pub record Hackathon : Type 0 where
  pub status : HackathonStatus
  pub registration_opens_at : Option ℕ
  pub registration_closes_at : Option ℕ
  pub end_date : Option ℕ
  pub min_team_size : ℕ
  pub max_team_size : ℕ
  pub team_edits_locked : Bool
  pub max_teams : Option ℕ
  pub max_participants : Option ℕ
  pub waitlist_enabled : Bool
  pub colleges : List String
  pub branches : List String
  pub years : List String
  pub required_profile_fields : List String
  pub require_rules_acceptance : Bool
  pub rules : String
  pub allow_open_innovation : Bool
  pub problem_statements_reveal_at : Option ℕ
  pub registration_questions : List Question
  pub payment_stage : PaymentStage
  pub idea_fee_amount : ℕ
  pub withdrawal_policy : WithdrawalPolicy
  pub withdrawal_deadline : Option ℕ
  pub team_registered_email : Bool  -- `event_settings(hackathon, "team_registered")[0]`

pub record ProblemStatement : Type 0 where
  pub pk : ℕ
  pub is_active : Bool
  pub max_teams : Option ℕ

pub record Team : Type 0 where
  pub pk : ℕ
  pub name : String
  pub leader : Option ℕ
  pub problem_statement : Option ℕ
  pub is_open_innovation : Bool
  pub custom_problem_title : String
  pub custom_problem_description : String
  pub custom_problem_domain : String
  pub status : TeamStatus
  pub is_waitlisted : Bool
  pub status_reason : String
  pub created_at : ℕ
  pub created_by : Option ℕ
  pub withdrawn_at : Option ℕ
  pub withdrawn_by : Option ℕ

pub record TeamMember : Type 0 where
  pub team : ℕ
  pub user : ℕ
  pub role : TeamRole
  pub rules_accepted_at : Option ℕ
  pub answers : List (String × Answer)

pub record TeamInvite : Type 0 where
  pub pk : ℕ
  pub team : ℕ
  pub invited_user : ℕ
  pub invited_by : ℕ
  pub status : InviteStatus
  pub responded_at : Option ℕ

pub record TeamEmailInvite : Type 0 where
  pub pk : ℕ
  pub team : ℕ
  pub email : String
  pub invited_by : ℕ
  pub status : EmailInviteStatus
  pub resolved_at : Option ℕ

pub record TeamJoinRequest : Type 0 where
  pub pk : ℕ
  pub team : ℕ
  pub user : ℕ
  pub status : JoinRequestStatus
  pub decided_at : Option ℕ

pub record WithdrawalRequest : Type 0 where
  pub pk : ℕ
  pub team : ℕ
  pub requested_by : ℕ
  pub reason : String
  pub status : WithdrawalStatus
  pub decided_by : Option ℕ
  pub decided_at : Option ℕ
  pub decision_note : String

pub record TeamAllowance : Type 0 where
  pub user : ℕ
  pub extra : ℕ

-- An upload of kind PAYMENT; `uploaded` is the state UPLOADED, `attached` the state ATTACHED.
pub record IdeaFile : Type 0 where
  pub pk : ℕ
  pub team : Option ℕ
  pub uploader : ℕ
  pub uploaded : Bool
  pub attached : Bool

pub record TeamPayment : Type 0 where
  pub pk : ℕ
  pub team : Option ℕ
  pub submitted_by : ℕ
  pub amount : ℕ
  pub transaction_id : String
  pub transaction_key : String
  pub screenshot : Option ℕ
  pub status : PaymentStatus
  pub reason : String
  pub reviewed_by : Option ℕ
  pub reviewed_at : Option ℕ

-- `status in ACTIVE_TEAM_STATUSES`
abbrev pub is_active : TeamStatus → Bool
is_active forming = true
is_active registered = true
is_active disqualified = false
is_active withdrawn = false
is_active payment_pending = false
is_active payment_rejected = false

-- `status in payments.PAYMENT_STATUSES`
abbrev pub is_unpaid : TeamStatus → Bool
is_unpaid payment_pending = true
is_unpaid payment_rejected = true
is_unpaid forming = false
is_unpaid registered = false
is_unpaid disqualified = false
is_unpaid withdrawn = false

abbrev pub is_forming : TeamStatus → Bool
is_forming forming = true
is_forming registered = false
is_forming disqualified = false
is_forming withdrawn = false
is_forming payment_pending = false
is_forming payment_rejected = false

abbrev pub is_registered : TeamStatus → Bool
is_registered registered = true
is_registered forming = false
is_registered disqualified = false
is_registered withdrawn = false
is_registered payment_pending = false
is_registered payment_rejected = false

abbrev pub is_payment_pending : TeamStatus → Bool
is_payment_pending payment_pending = true
is_payment_pending forming = false
is_payment_pending registered = false
is_payment_pending disqualified = false
is_payment_pending withdrawn = false
is_payment_pending payment_rejected = false

abbrev pub is_payment_rejected : TeamStatus → Bool
is_payment_rejected payment_rejected = true
is_payment_rejected forming = false
is_payment_rejected registered = false
is_payment_rejected disqualified = false
is_payment_rejected withdrawn = false
is_payment_rejected payment_pending = false

-- `status in (DISQUALIFIED, WITHDRAWN)`
abbrev pub is_out : TeamStatus → Bool
is_out disqualified = true
is_out withdrawn = true
is_out forming = false
is_out registered = false
is_out payment_pending = false
is_out payment_rejected = false

abbrev pub is_live : HackathonStatus → Bool
is_live live = true
is_live draft = false
is_live closed = false

abbrev pub is_pending_invite : InviteStatus → Bool
is_pending_invite invite_pending = true
is_pending_invite invite_accepted = false
is_pending_invite invite_declined = false
is_pending_invite invite_cancelled = false

abbrev pub is_pending_email : EmailInviteStatus → Bool
is_pending_email email_pending = true
is_pending_email email_claimed = false
is_pending_email email_cancelled = false

abbrev pub is_pending_join : JoinRequestStatus → Bool
is_pending_join join_pending = true
is_pending_join join_accepted = false
is_pending_join join_declined = false
is_pending_join join_cancelled = false

abbrev pub is_pending_request : WithdrawalStatus → Bool
is_pending_request request_pending = true
is_pending_request request_approved = false
is_pending_request request_denied = false
is_pending_request request_cancelled = false

abbrev pub is_pay_pending : PaymentStatus → Bool
is_pay_pending pay_pending = true
is_pay_pending pay_verified = false
is_pay_pending pay_rejected = false
is_pay_pending pay_cancelled = false
is_pay_pending pay_removed = false

abbrev pub is_pay_rejected : PaymentStatus → Bool
is_pay_rejected pay_rejected = true
is_pay_rejected pay_pending = false
is_pay_rejected pay_verified = false
is_pay_rejected pay_cancelled = false
is_pay_rejected pay_removed = false

abbrev pub is_pay_verified : PaymentStatus → Bool
is_pay_verified pay_verified = true
is_pay_verified pay_pending = false
is_pay_verified pay_rejected = false
is_pay_verified pay_cancelled = false
is_pay_verified pay_removed = false

-- `status in CLOSED_STATUSES`
abbrev pub is_pay_closed : PaymentStatus → Bool
is_pay_closed pay_cancelled = true
is_pay_closed pay_removed = true
is_pay_closed pay_pending = false
is_pay_closed pay_verified = false
is_pay_closed pay_rejected = false
