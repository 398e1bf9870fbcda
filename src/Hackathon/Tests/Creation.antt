-- ===== src/Hackathon/Tests/Creation.antt =====
-- An example of creating a team that has to be paid for.
use srkrcc_main_application.Common.{
  squash, len, squeeze, ◌≡◌, refl, true, false, none, some, [], ◌∷◌, exists, str_eq,
}
use srkrcc_main_application.Hackathon.Model.{null, Team, IdeaFile}
use srkrcc_main_application.Hackathon.Monad.{Db, Result, ok}
use srkrcc_main_application.Hackathon.Store.{has_team, is_team_organizer, is_registration_open}
use srkrcc_main_application.Hackathon.Registration.{
  check_eligibility, check_listed, registration_inputs, missing_profile_fields,
}
use srkrcc_main_application.Hackathon.Registration.Answers.{clean_answers, clean_from, truth}
use srkrcc_main_application.Hackathon.Registration.Capacity.{
  placed_participants, placed_teams, teams_full, participants_would_exceed,
  should_waitlist_new_team,
}
use srkrcc_main_application.Hackathon.Team.{
  require_registration_open, require_profile_complete, create_member, cancel_invites_of,
  save_status, recompute_status,
}
use srkrcc_main_application.Hackathon.Team.Problem.{require_problems_revealed, resolve_problem}
use srkrcc_main_application.Hackathon.Team.Formation.{
  NewTeam, creation_inputs, decide_seat, create_rows, attach, create_new,
}
use srkrcc_main_application.Hackathon.Team.Creation.{Created, create_new-Created}
use srkrcc_main_application.Hackathon.Withdrawals.{
  check_can_create, allowance_for, created_count, last_withdrawal, organizers_to_tell,
}
use srkrcc_main_application.Hackathon.Payments.{clean_submission, attach_payment, reviewers}
use srkrcc_main_application.Hackathon.Tests.{
  plain_python, dan, summer_db, forming_team, value_of, rows_of,
}

abbrev receipt : IdeaFile
receipt = record { pk = 71; team = none; uploader = 4; uploaded = true; attached = false }

abbrev receipt_db : Db
receipt_db = record summer_db { files = receipt ∷ [] }

abbrev dans_wish : NewTeam
dans_wish = record {
  name = "New";
  problem_statement = none;
  open_innovation = none;
  actor = none;
  data' = some (record {
    accept_rules = null;
    answers = [];
    transaction_id = "T2";
    payment_file_id = some 71;
  });
}

abbrev creating : Result (Team × Db)
creating = create_new plain_python dan false true "New" dans_wish receipt_db

creating_succeeds : creating ≡ ok (value_of forming_team creating, rows_of receipt_db creating)
unfolding squeeze len squash create_new creation_inputs require_registration_open
    is_registration_open require_profile_complete missing_profile_fields check_eligibility
    check_listed check_can_create allowance_for created_count last_withdrawal registration_inputs
    clean_answers clean_from truth resolve_problem decide_seat require_problems_revealed
    should_waitlist_new_team teams_full participants_would_exceed placed_teams placed_participants
    clean_submission create_rows create_member attach attach_payment cancel_invites_of
    recompute_status save_status reviewers organizers_to_tell is_team_organizer
creating_succeeds = refl

create_new-Created_example :
    (has_team 4 receipt_db.members ≡ false)
    × (exists (λ t. str_eq t.name "New") receipt_db.teams ≡ false)
    × Created dan false true "New" receipt_db
        (value_of forming_team creating)
        (rows_of receipt_db creating)
create_new-Created_example =
    create_new-Created plain_python dan false true "New" dans_wish (value_of forming_team creating)
      receipt_db (rows_of receipt_db creating) refl creating_succeeds
