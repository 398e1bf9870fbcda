-- ===== src/Hackathon/Team/Creation/Reads.antt =====
-- The checks of `TeamService.create_team`, which leave the rows as they are.
use srkrcc_main_application.Common.{
  ℕ, ◌≡◌, String, Bool, true, false, not, ◌&&◌, Option, none, some, List, arith, Python, inl, inr,
}
use srkrcc_main_application.Hackathon.Model.{flag, User, Team, Answer, IdeaFile}
use srkrcc_main_application.Hackathon.Monad.{Db, ok}
use srkrcc_main_application.Hackathon.Outcome.{Result-cases}
use srkrcc_main_application.Hackathon.Registration.{
  RegistrationData, check_eligibility, registration_inputs,
}
use srkrcc_main_application.Hackathon.Registration.Reads.{
  check_eligibility_reads, registration_inputs_reads,
}
use srkrcc_main_application.Hackathon.Registration.Capacity.{should_waitlist_new_team}
use srkrcc_main_application.Hackathon.Team.{require_registration_open, require_profile_complete}
use srkrcc_main_application.Hackathon.Team.Problem.{
  OpenInnovation, Problem, check_problem_statement, require_problems_revealed, clean_text,
  clean_open_innovation, resolve_problem,
}
use srkrcc_main_application.Hackathon.Team.Formation.{
  NewTeam, creation_inputs, decide_seat, data_or_empty,
}
use srkrcc_main_application.Hackathon.Payments.{clean_submission}
use srkrcc_main_application.Hackathon.Withdrawals.{check_can_create}

pub require_problems_revealed_reads :
    (p : Option ℕ) (x : Unit {0}) (db db' : Db)
    → require_problems_revealed p db ≡ ok (x, db')
    → db' ≡ db
unfolding require_problems_revealed
require_problems_revealed_reads p x db db' h = ground arith

pub should_waitlist_new_team_reads :
    (x : Bool) (db db' : Db) → should_waitlist_new_team db ≡ ok (x, db') → db' ≡ db
unfolding should_waitlist_new_team
should_waitlist_new_team_reads x db db' h = ground arith

pub check_problem_statement_reads :
    (p : ℕ) (t : Option Team) (x : Unit {0}) (db db' : Db)
    → check_problem_statement p t db ≡ ok (x, db')
    → db' ≡ db
unfolding check_problem_statement
check_problem_statement_reads p t x db db' h = ground arith

abbrev pub is_sent : Option (IdeaFile × String) → Bool
is_sent none = false
is_sent (some x) = true

module _ (py : Python) where
  pub clean_submission_reads :
      (u : User) (d : RegistrationData) (x : IdeaFile × String) (db db' : Db)
      → clean_submission py u d db ≡ ok (x, db')
      → db' ≡ db
  unfolding clean_submission
  clean_submission_reads u d x db db' h = ground arith

  pub clean_text_reads :
      (s : String) (n : ℕ) (x : String) (db db' : Db)
      → clean_text py s n db ≡ ok (x, db')
      → db' ≡ db
  unfolding clean_text
  clean_text_reads s n x db db' h = ground arith

  pub clean_open_innovation_reads :
      (o x : OpenInnovation) (db db' : Db) → clean_open_innovation py o db ≡ ok (x, db') → db' ≡ db
  unfolding clean_open_innovation clean_text
  clean_open_innovation_reads o x db db' h = ground arith

  pub resolve_problem_reads :
      (p : Option ℕ) (o : Option OpenInnovation) (t : Option Team) (x : Problem) (db db' : Db)
      → resolve_problem py p o t db ≡ ok (x, db')
      → db' ≡ db
  unfolding resolve_problem
  resolve_problem_reads (some p) (some o) t x db db' h = ground arith
  resolve_problem_reads none none t x db db' h = ground arith
  resolve_problem_reads (some p) none t x db db' h =
      elim (Result-cases (check_problem_statement p t db)) [
        | inl (e, q) ↦ ground arith
        | inr ((y, s), q) ↦ ground (arith, check_problem_statement_reads p t y db s q)
      ]
  resolve_problem_reads none (some o) t x db db' h =
      elim (Result-cases (clean_open_innovation py o db)) [
        | inl (e, q) ↦ ground arith
        | inr ((y, s), q) ↦ ground (arith, clean_open_innovation_reads o y db s q)
      ]

  pub decide_seat_reads :
      (u : User) (by pay : Bool) (new : NewTeam) (x : Bool × Option (IdeaFile × String))
      (db db' : Db)
      → decide_seat py u by pay new db ≡ ok (x, db')
      → db' ≡ db
  unfolding decide_seat require_problems_revealed
  decide_seat_reads u true pay new x db db' h = ground arith
  decide_seat_reads u false false new x db db' h =
      elim (Result-cases (should_waitlist_new_team db)) [
        | inl (e, q) ↦ ground arith
        | inr ((y, s), q) ↦ ground (arith, should_waitlist_new_team_reads y db s q)
      ]
  decide_seat_reads u false true new x db db' h =
      elim (Result-cases (should_waitlist_new_team db)) [
        | inl (e, q) ↦ ground arith
        | inr ((y, s), q) ↦
            let same = should_waitlist_new_team_reads y db s q in
            elim (Result-cases (clean_submission py u (data_or_empty new.data') db)) [
              | inl (e, o) ↦ ground (arith, same)
              | inr ((z, r), o) ↦
                  ground (arith, same, clean_submission_reads u (data_or_empty new.data') z db r o)
            ]
      ]

  pub decide_seat_sent :
      (u : User) (by pay : Bool) (new : NewTeam) (x : Bool × Option (IdeaFile × String))
      (db db' : Db)
      → decide_seat py u by pay new db ≡ ok (x, db')
      → is_sent x.1 ≡ (pay && not by)
  unfolding decide_seat require_problems_revealed
  decide_seat_sent u true pay new x db db' h = ground arith
  decide_seat_sent u false false new x db db' h =
      elim (Result-cases (should_waitlist_new_team db)) [
        | inl (e, q) ↦ absurd (ground arith)
        | inr ((y, s), q) ↦ ground arith
      ]
  decide_seat_sent u false true new x db db' h = elim (Result-cases (should_waitlist_new_team db)) [
    | inl (e, q) ↦ absurd (ground arith)
    | inr ((y, s), q) ↦ elim (Result-cases (clean_submission py u (data_or_empty new.data') s)) [
      | inl (e, o) ↦ absurd (ground arith)
      | inr ((z, r), o) ↦ ground arith
    ]
  ]

  pub creation_inputs_reads :
      (u : User) (by : Bool) (d : Option RegistrationData) (x : Option ℕ × List (String × Answer))
      (db db' : Db)
      → creation_inputs py u by d db ≡ ok (x, db')
      → db' ≡ db
  unfolding creation_inputs require_registration_open require_profile_complete check_can_create
  creation_inputs_reads u true none x db db' h = ground arith
  creation_inputs_reads u true (some d) x db db' h =
      registration_inputs_reads py db.hackathon (record d { accept_rules = flag true }) x db db' h
  creation_inputs_reads u false d x db db' h =
      elim (Result-cases (check_eligibility py db.hackathon u db)) [
        | inl (e, q) ↦ ground arith
        | inr ((y, s), q) ↦
            let same = check_eligibility_reads py db.hackathon u y db s q in
            elim (Result-cases (registration_inputs py db.hackathon (data_or_empty d) db)) [
              | inl (e, o) ↦ ground (arith, same)
              | inr ((z, r), o) ↦ ground (
                arith,
                same,
                registration_inputs_reads py db.hackathon (data_or_empty d) z db r o,
              )
            ]
      ]
