-- ===== src/Hackathon/Tests/Rules.antt =====
-- Examples for teams, answers and withdrawals.
use srkrcc_main_application.Common.{
  squeeze, truncate, len, strip, ℕ, ◌+◌, ◌<◌, String, ◌≡◌, ◌↔◌, ◌⊎◌, refl, Bool, true, false, List,
  [], ◌∷◌, some, none, not, ◌&&◌, first, delete, exists, str_eq, Option, ◌==◌,
}
use srkrcc_main_application.Common.Rows.Laws.{All}
use srkrcc_main_application.Hackathon.Model.{
  flag, text, Answer, Team, WithdrawalRequest, withdrawn, member_role, leader_role, is_active,
  is_pending_request,
}
use srkrcc_main_application.Hackathon.Monad.{Db, Result, ok}
use srkrcc_main_application.Hackathon.Outcome.{Returns}
use srkrcc_main_application.Hackathon.Store.{size, is_registration_open}
use srkrcc_main_application.Hackathon.Registration.{
  check_eligibility, check_listed, missing_profile_fields,
}
use srkrcc_main_application.Hackathon.Registration.Answers.{
  clean_answers, clean_from, clean_answer, check_kind, truth, render,
}
use srkrcc_main_application.Hackathon.Registration.Capacity.{
  placed_participants, participants_would_exceed,
}
use srkrcc_main_application.Hackathon.Registration.Validity.{
  is_answered, is_asked, clean_answers-IsValid,
}
use srkrcc_main_application.Hackathon.Team.{
  require_registration_open, require_profile_complete, save_status, recompute_status, create_member,
  cancel_invites_of, withdraw_pending_requests, check_admissible, check_room, admit,
}
use srkrcc_main_application.Hackathon.Team.Status.{
  Recomputed, announcements, recompute_status_lem, recompute_status_idem,
}
use srkrcc_main_application.Hackathon.Team.Admission.{Admitted, admit-Admitted}
use srkrcc_main_application.Hackathon.Team.Members.{transfer_leadership}
use srkrcc_main_application.Hackathon.Withdrawals.{
  clean_reason, max_self_created_teams, allowance_for, created_count, check_can_create, check_open,
  window, needs_approval, finish_withdrawal, withdraw, decide_withdrawal,
}
use srkrcc_main_application.Hackathon.Withdrawals.Creation.{has_cooled_down, check_can_create_lem}
use srkrcc_main_application.Hackathon.Withdrawals.Leaving.{
  GivenUp, Requested, withdraw_lem, decide_withdrawal_lem,
}
use srkrcc_main_application.Hackathon.Tests.{
  plain_python, bob, dan, summer_db, forming_team, wish, no_data, member_row, size_question,
  terms_question, value_of, rows_of,
}

-- Dan joins Bob's team.
abbrev joining : Result ((Team × Bool) × Db)
joining = admit plain_python forming_team dan no_data true summer_db

abbrev joined_db : Db
joined_db = rows_of summer_db joining

abbrev joined_team : Team × Bool
joined_team = value_of (forming_team, false) joining

joining_succeeds : joining ≡ ok (joined_team, joined_db)
unfolding strip admit check_admissible require_registration_open is_registration_open
    require_profile_complete missing_profile_fields check_eligibility check_listed check_room
    participants_would_exceed placed_participants create_member cancel_invites_of
    withdraw_pending_requests recompute_status save_status
joining_succeeds = refl

admit-Admitted_example : Admitted forming_team dan summer_db joined_team.0 joined_db
admit-Admitted_example =
    admit-Admitted plain_python forming_team joined_team.0 dan no_data true joined_team.1 summer_db
      joined_db joining_succeeds

-- With a second member the forming team becomes registered.
abbrev paired_db : Db
paired_db = record summer_db {
  members =
      member_row 12 2 leader_role ∷ member_row 12 4 member_role ∷ member_row 13 3 leader_role ∷ [];
}

abbrev paired : Result ((Team × Bool) × Db)
paired = recompute_status forming_team paired_db

recompute_status_lem_example :
    Returns
      (λ r db'.
        Recomputed forming_team paired_db r.0 db'
        × (r.1 ≡ true)
        × (db'.effects ≡ announcements forming_team))
      (recompute_status forming_team paired_db)
recompute_status_lem_example = recompute_status_lem forming_team paired_db

abbrev paired_team : Team
paired_team = (value_of (forming_team, false) paired).0

paired_registers : paired ≡ ok ((paired_team, true), rows_of paired_db paired)
unfolding recompute_status save_status
paired_registers = refl

recompute_status_idem_example :
    recompute_status paired_team (rows_of paired_db paired)
    ≡ ok ((paired_team, false), rows_of paired_db paired)
recompute_status_idem_example =
    recompute_status_idem forming_team paired_team true paired_db (rows_of paired_db paired)
      paired_registers

-- Bob hands the team over to Dan.
abbrev handing : Result (Team × Db)
handing = transfer_leadership 12 bob 4 paired_db

-- Answers to a text question and a checkbox.
abbrev cleaned : Result (List (String × Answer) × Db)
cleaned =
    clean_answers plain_python (size_question ∷ terms_question ∷ [])
      (("terms", flag true) ∷ ("size", text "M") ∷ []) summer_db

cleaning_succeeds : cleaned ≡ ok (value_of [] cleaned, summer_db)
unfolding strip len clean_answers clean_from clean_answer check_kind truth render
cleaning_succeeds = refl

clean_answers-IsValid_example :
    All (λ q. is_answered (value_of [] cleaned) q ≡ true) (size_question ∷ terms_question ∷ [])
    × All
        (λ e. is_asked plain_python (size_question ∷ terms_question ∷ []) e ≡ true)
        (value_of [] cleaned)
clean_answers-IsValid_example =
    clean_answers-IsValid plain_python (size_question ∷ terms_question ∷ [])
      (("terms", flag true) ∷ ("size", text "M") ∷ []) (value_of [] cleaned) summer_db summer_db
      cleaning_succeeds

check_can_create_lem_example : (check_can_create 2 summer_db ≡ ok (tt, summer_db)) ↔ (
    (created_count summer_db.teams 2
      < max_self_created_teams + allowance_for summer_db.allowances 2)
    × All (λ t. has_cooled_down 2 100 t ≡ true) summer_db.teams)
check_can_create_lem_example = check_can_create_lem 2 summer_db

-- Bob gives up his team, which has no other member.
abbrev giving_up : Result ((Team × Option ℕ) × Db)
giving_up = withdraw plain_python forming_team 2 "No time" summer_db

abbrev given_up : Team × Option ℕ
given_up = value_of (forming_team, none) giving_up

giving_up_succeeds : giving_up ≡ ok ((given_up.0, given_up.1), rows_of summer_db giving_up)
unfolding truncate squeeze withdraw check_open window needs_approval finish_withdrawal
giving_up_succeeds = refl

withdraw_lem_example :
    (str_eq (clean_reason plain_python "No time") "" ≡ false)
    × (check_open forming_team summer_db ≡ ok (tt, summer_db))
    × (((needs_approval forming_team summer_db ≡ false)
          × (given_up.1 ≡ none)
          × GivenUp forming_team 2 summer_db given_up.0 (rows_of summer_db giving_up))
        ⊎ ((needs_approval forming_team summer_db ≡ true)
            × ((k : ℕ) × (given_up.1 ≡ some k)
                × (given_up.0 ≡ forming_team)
                × Requested forming_team 2 k summer_db (rows_of summer_db giving_up))))
withdraw_lem_example =
    withdraw_lem plain_python forming_team given_up.0 2 "No time" given_up.1 summer_db
      (rows_of summer_db giving_up) giving_up_succeeds

-- An organizer approves a request for the same team.
abbrev deciding : Result (WithdrawalRequest × Db)
deciding = decide_withdrawal plain_python 51 1 true "Fine" summer_db

deciding_succeeds : deciding ≡ ok (value_of wish deciding, rows_of summer_db deciding)
unfolding truncate squeeze decide_withdrawal finish_withdrawal
deciding_succeeds = refl

decide_withdrawal_lem_example :
    (is_pending_request wish.status ≡ true)
    × (first (λ r. r.pk == 51) (rows_of summer_db deciding).withdrawals
        ≡ some (value_of wish deciding))
    × (is_pending_request (value_of wish deciding).status ≡ false)
    × ((is_active forming_team.status ≡ true)
        × (exists (λ m. m.team == 12 && not (m.user == 2)) summer_db.members ≡ false)
        × ((rows_of summer_db deciding).members
            ≡ delete (λ m. m.team == 12 && m.user == 2) summer_db.members)
        × (size 12 (rows_of summer_db deciding).members ≡ 0)
        × (first (λ x. x.pk == 12) (rows_of summer_db deciding).teams
            ≡ some (record forming_team {
              leader = none;
              status = withdrawn;
              status_reason = "No time";
              withdrawn_at = some 100;
              withdrawn_by = some 2;
            })))
decide_withdrawal_lem_example =
    decide_withdrawal_lem plain_python forming_team 51 1 true "Fine" wish (value_of wish deciding)
      summer_db (rows_of summer_db deciding) refl refl deciding_succeeds
