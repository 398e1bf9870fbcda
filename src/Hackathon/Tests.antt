-- ===== src/Hackathon/Tests.antt =====
-- A small hackathon on which the theorems are tried out.
mod Creation
mod Rules
mod Invites
mod Queue
mod Fees
mod Delegates
use srkrcc_main_application.Common.{
  ℕ, ◌+◌, String, Bool, true, false, Option, none, some, List, [], ◌∷◌, str_eq, if◌then◌else◌,
  Python,
}
use srkrcc_main_application.Hackathon.Model.{
  live, instant, registration, leader_role, member_role, forming, registered, payment_pending,
  pay_pending, invite_pending, request_pending, text_question, checkbox_question, Question, User,
  Hackathon, Team, TeamMember, TeamInvite, TeamPayment, WithdrawalRequest, TeamStatus, TeamRole,
}
use srkrcc_main_application.Hackathon.Monad.{Db, Result, ok, err}
use srkrcc_main_application.Hackathon.Registration.{RegistrationData}

-- Text functions that leave a text as it is.
abbrev pub plain_python : Python
plain_python = record {
  lower = λ s. s;
  is_float = λ s. false;
  valid_email = λ s. true;
  storage_copy = λ n. true;
}

abbrev person : ℕ → String → Bool → User
person pk email organizer = record {
  pk = pk;
  email = email;
  site_organizer = organizer;
  site_admin = false;
  profile = λ k. k;
}

abbrev pub ada : User
ada = person 1 "ada@example.org" true

abbrev pub bob : User
bob = person 2 "bob@example.org" false

abbrev pub cyd : User
cyd = person 3 "cyd@example.org" false

abbrev pub dan : User
dan = person 4 "dan@example.org" false

abbrev pub size_question : Question
size_question = record {
  key = "size";
  label = "T-shirt size";
  kind = text_question;
  required = true;
  options = [];
}

abbrev pub terms_question : Question
terms_question = record {
  key = "terms";
  label = "Terms";
  kind = checkbox_question;
  required = true;
  options = [];
}

abbrev pub summer : Hackathon
summer = record {
  status = live;
  registration_opens_at = some 10;
  registration_closes_at = some 5000;
  end_date = some 9000;
  min_team_size = 2;
  max_team_size = 3;
  team_edits_locked = false;
  max_teams = some 2;
  max_participants = some 4;
  waitlist_enabled = true;
  colleges = [];
  branches = [];
  years = [];
  required_profile_fields = "phone" ∷ [];
  require_rules_acceptance = false;
  rules = "";
  allow_open_innovation = true;
  problem_statements_reveal_at = none;
  registration_questions = [];
  payment_stage = registration;
  idea_fee_amount = 200;
  withdrawal_policy = instant;
  withdrawal_deadline = none;
  team_registered_email = true;
}

abbrev team_row : ℕ → String → ℕ → TeamStatus → Bool → Team
team_row pk name leader status queued = record {
  pk = pk;
  name = name;
  leader = some leader;
  problem_statement = none;
  is_open_innovation = true;
  custom_problem_title = "";
  custom_problem_description = "";
  custom_problem_domain = "";
  status = status;
  is_waitlisted = queued;
  status_reason = "";
  created_at = 20 + pk;
  created_by = some leader;
  withdrawn_at = none;
  withdrawn_by = none;
}

-- Unpaid: it waits for the check of its payment.
abbrev pub unpaid_team : Team
unpaid_team = team_row 11 "Unpaid" 1 payment_pending false

abbrev pub forming_team : Team
forming_team = team_row 12 "Forming" 2 forming false

abbrev pub queued_team : Team
queued_team = team_row 13 "Queued" 3 forming true

abbrev pub member_row : ℕ → ℕ → TeamRole → TeamMember
member_row team user role = record {
  team = team;
  user = user;
  role = role;
  rules_accepted_at = none;
  answers = [];
}

abbrev pub fee : TeamPayment
fee = record {
  pk = 31;
  team = some 11;
  submitted_by = 1;
  amount = 200;
  transaction_id = "T1";
  transaction_key = "t1";
  screenshot = none;
  status = pay_pending;
  reason = "";
  reviewed_by = none;
  reviewed_at = none;
}

abbrev pub invite_row : TeamInvite
invite_row = record {
  pk = 41;
  team = 13;
  invited_user = 4;
  invited_by = 3;
  status = invite_pending;
  responded_at = none;
}

abbrev pub wish : WithdrawalRequest
wish = record {
  pk = 51;
  team = 12;
  requested_by = 2;
  reason = "No time";
  status = request_pending;
  decided_by = none;
  decided_at = none;
  decision_note = "";
}

abbrev pub summer_db : Db
summer_db = record {
  now = 100;
  next_pk = 60;
  hackathon = summer;
  users = ada ∷ bob ∷ cyd ∷ dan ∷ [];
  staff = [];
  teams = unpaid_team ∷ forming_team ∷ queued_team ∷ [];
  members =
      member_row 11 1 leader_role ∷ member_row 12 2 leader_role ∷ member_row 13 3 leader_role ∷ [];
  invites = invite_row ∷ [];
  email_invites = [];
  join_requests = [];
  withdrawals = wish ∷ [];
  allowances = [];
  payments = fee ∷ [];
  files = [];
  problem_statements = [];
  round_entries = [];
  check_ins = [];
  effects = [];
}

abbrev pub no_data : RegistrationData
no_data = record {
  accept_rules = srkrcc_main_application.Hackathon.Model.null;
  answers = [];
  transaction_id = "";
  payment_file_id = none;
}

-- What a request returned, and the rows it left, or a stand-in and the rows as they were.
abbrev pub value_of : {A : Type 0} → A → Result (A × Db) → A
value_of a (ok (x, db)) = x
value_of a (err e) = a

abbrev pub rows_of : {A : Type 0} → Db → Result (A × Db) → Db
rows_of db (ok (x, db')) = db'
rows_of db (err e) = db
