-- ===== src/Hackathon/Registration/Reads.antt =====
-- The checks of apps/hackathons/registration.py and the rows they are given.
use srkrcc_main_application.Common.{
  ℕ, String, ◌≡◌, Option, none, some, List, [], ◌∷◌, arith, Python, inl, inr,
}
use srkrcc_main_application.Hackathon.Model.{Raw, Answer, User, Hackathon, Question}
use srkrcc_main_application.Hackathon.Monad.{Db, ok}
use srkrcc_main_application.Hackathon.Outcome.{Result-cases}
use srkrcc_main_application.Hackathon.Registration.{
  RegistrationData, check_listed, check_eligibility, registration_inputs,
}
use srkrcc_main_application.Hackathon.Registration.Answers.{
  assign, get, check_kind, clean_answer, clean_from, clean_answers,
}

module _ (py : Python) where
  check_listed_reads :
      (u : User) (allowed : List String) (k : String) (x : Unit {0}) (db db' : Db)
      → check_listed py u allowed k db ≡ ok (x, db')
      → db' ≡ db
  unfolding check_listed
  check_listed_reads u allowed k x db db' h = ground arith

  pub check_eligibility_reads :
      (hk : Hackathon) (u : User) (x : Unit {0}) (db db' : Db)
      → check_eligibility py hk u db ≡ ok (x, db')
      → db' ≡ db
  unfolding check_eligibility check_listed
  check_eligibility_reads hk u x db db' h = ground arith

  clean_answer_reads :
      (q : Question) (v : Raw) (x : Option Answer) (db db' : Db)
      → clean_answer py q v db ≡ ok (x, db')
      → db' ≡ db
  unfolding clean_answer check_kind
  clean_answer_reads q v x db db' h = ground arith

  clean_from_reads :
      (qs : List Question) (raw : List (String × Raw)) (c x : List (String × Answer)) (db db' : Db)
      → clean_from py qs raw c db ≡ ok (x, db')
      → db' ≡ db
  unfolding clean_from
  clean_from_reads [] raw c x db db' h = ground arith
  clean_from_reads (q ∷ qs) raw c x db db' h =
      elim (Result-cases (clean_answer py q (get q.key raw) db)) [
        | inl (e, r) ↦ ground arith
        | inr ((none, d), r) ↦ ground (
          arith,
          clean_answer_reads q (get q.key raw) none db d r,
          clean_from_reads qs raw c x d db',
        )
        | inr ((some a, d), r) ↦ ground (
          arith,
          clean_answer_reads q (get q.key raw) (some a) db d r,
          clean_from_reads qs raw (assign q.key a c) x d db',
        )
      ]

  pub registration_inputs_reads :
      (hk : Hackathon) (d : RegistrationData) (x : Option ℕ × List (String × Answer)) (db db' : Db)
      → registration_inputs py hk d db ≡ ok (x, db')
      → db' ≡ db
  unfolding registration_inputs clean_answers
  registration_inputs_reads hk d x db db' h =
      elim (Result-cases (clean_from py hk.registration_questions d.answers [] db)) [
        | inl (e, r) ↦ ground arith
        | inr ((c, s), r) ↦
            ground (arith, clean_from_reads hk.registration_questions d.answers [] c db s r)
      ]
