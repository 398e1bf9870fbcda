-- ===== src/Hackathon/Team/Formation.antt =====
-- `TeamService.create_team` of apps/hackathons/services.py.
use srkrcc_main_application.Common.{
  len, strip, ℕ, String, Bool, true, false, not, ◌&&◌, Option, none, some, List, [], ◌∷◌, ltb,
  str_eq, exists, append, if◌then◌else◌, Python,
}
use srkrcc_main_application.Hackathon.Model.{
  flag, Answer, leader_role, forming, payment_pending, User, Team, IdeaFile, is_forming,
}
use srkrcc_main_application.Hackathon.Monad.{
  Db, Action, ◌>>=◌, ◌>>◌, pure, raise_if, modify, when, emit, fresh, audit, email, notify,
  team_created, created_team, name_required, name_too_long, name_taken, already_in_team,
  team_edits_locked,
}
use srkrcc_main_application.Hackathon.Store.{is_team_organizer, has_team}
use srkrcc_main_application.Hackathon.Registration.{
  RegistrationData, check_eligibility, registration_inputs,
}
use srkrcc_main_application.Hackathon.Registration.Capacity.{should_waitlist_new_team}
use srkrcc_main_application.Hackathon.Team.{
  require_registration_open, require_profile_complete, create_member, cancel_invites_of,
  recompute_status,
}
use srkrcc_main_application.Hackathon.Team.Problem.{
  OpenInnovation, Problem, resolve_problem, require_problems_revealed,
}
use srkrcc_main_application.Hackathon.Withdrawals.{check_can_create}
use srkrcc_main_application.Hackathon.Payments.{
  required, existing_submission, clean_submission, attach_payment, reviewers,
}

-- What the leader sends to create a team; `actor` is the organizer who does it for somebody.
pub record NewTeam : Type 0 where
  pub name : String
  pub problem_statement : Option ℕ
  pub open_innovation : Option OpenInnovation
  pub actor : Option User
  pub data' : Option RegistrationData

abbrev pub is_by_admin : Option User → Db → Bool
is_by_admin none db = false
is_by_admin (some actor) db = is_team_organizer db actor

-- `actor or leader`
abbrev pub auditor : User → Option User → ℕ
auditor leader none = leader.pk
auditor leader (some actor) = actor.pk

abbrev no_data : RegistrationData
no_data = record {
  accept_rules = flag false;
  answers = [];
  transaction_id = "";
  payment_file_id = none;
}

-- `data or {}`
abbrev pub data_or_empty : Option RegistrationData → RegistrationData
data_or_empty none = no_data
data_or_empty (some d) = d

module _ (py : Python) where
  -- The checks on the leader, and the answers: all of them unless an organizer creates the team.
  unfoldable pub creation_inputs :
      User → Bool → Option RegistrationData → Action (Option ℕ × List (String × Answer))
  creation_inputs leader false sent = λ db.
      (do
        require_registration_open
        raise_if db.hackathon.team_edits_locked team_edits_locked
        require_profile_complete leader
        check_eligibility py db.hackathon leader
        check_can_create leader.pk
        registration_inputs py db.hackathon (data_or_empty sent))
        db
  creation_inputs leader true none = pure (none, [])
  creation_inputs leader true (some d) =
      λ db. registration_inputs py db.hackathon (record d { accept_rules = flag true }) db

  -- The seat of the new team: whether it queues, and its payment, which defers that decision.
  unfoldable pub decide_seat :
      User → Bool → Bool → NewTeam → Action (Bool × Option (IdeaFile × String))
  decide_seat leader true pay new = pure (false, none)
  decide_seat leader false true new = do
    require_problems_revealed new.problem_statement
    should_waitlist_new_team
    submission ← clean_submission py leader (data_or_empty new.data')
    pure (false, some submission)
  decide_seat leader false false new = do
    require_problems_revealed new.problem_statement
    waitlisted ← should_waitlist_new_team
    pure (waitlisted, none)

  -- `Team.objects.create` and the leader's `TeamMember.objects.create`.
  unfoldable pub create_rows :
      User → String → Bool → Bool → Bool → Problem → Option ℕ × List (String × Answer) → Action Team
  create_rows leader name by_admin pay waitlisted problem inputs db =
      (do
        pk ← fresh
        let team : Team = record {
          pk = pk;
          name = name;
          leader = some leader.pk;
          problem_statement = problem.problem_statement;
          is_open_innovation = problem.is_open_innovation;
          custom_problem_title = problem.custom.title;
          custom_problem_description = problem.custom.description;
          custom_problem_domain = problem.custom.domain;
          status = if pay then payment_pending else forming;
          is_waitlisted = waitlisted;
          status_reason = "";
          created_at = db.now;
          created_by = if by_admin then none else some leader.pk;
          withdrawn_at = none;
          withdrawn_by = none;
        }
        modify (λ s. record s { teams = append s.teams team })
        create_member (record {
          team = pk;
          user = leader.pk;
          role = leader_role;
          rules_accepted_at = inputs.0;
          answers = inputs.1;
        })
        pure team)
        db

  unfoldable pub attach : Team → User → Option (IdeaFile × String) → Action (Unit {0})
  attach team leader none = pure tt
  attach team leader (some (file, reference)) =
      attach_payment py team leader file reference >> pure tt

  -- The part of `create_team` after the retry of a payment was ruled out.
  unfoldable pub create_new : User → Bool → Bool → String → NewTeam → Action Team
  create_new leader by_admin pay name new db =
      (do
        inputs ← creation_inputs leader by_admin new.data'
        raise_if (has_team leader.pk db.members) already_in_team
        raise_if (exists (λ t. str_eq (py.lower t.name) (py.lower name)) db.teams) name_taken
        problem ← resolve_problem py new.problem_statement new.open_innovation none
        seat ← decide_seat leader by_admin pay new
        team ← create_rows leader name by_admin pay seat.0 problem inputs
        attach team leader seat.1
        cancel_invites_of leader.pk
        recomputed ← recompute_status team
        when (is_forming recomputed.0.status) (emit (email team_created team.pk))
        emit (audit (some (auditor leader new.actor)) created_team team.pk)
        when pay (emit (notify (leader.pk ∷ []) team.pk))
        when pay (emit (notify (reviewers db) team.pk))
        when seat.0 (emit (notify (leader.pk ∷ []) team.pk))
        pure recomputed.0)
        db

  unfoldable pub create_team : User → NewTeam → Action Team
  create_team leader new db =
      let name = strip new.name in
      let by_admin = is_by_admin new.actor db in
      let pay = not by_admin && required db.hackathon in
      let again =
        if pay then existing_submission py leader (data_or_empty new.data') db else none in
      (do
        raise_if (str_eq name "") name_required
        raise_if (ltb 150 (len name)) name_too_long
        elim again [ some team ↦ pure team | none ↦ create_new leader by_admin pay name new ])
        db
