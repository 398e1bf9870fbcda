-- ===== src/Hackathon/Registration.antt =====
-- apps/hackathons/registration.py: who may take part, what a participant must provide, and capacity.
pub mod Answers
pub mod Capacity
pub mod Reads
pub mod Validity
use srkrcc_main_application.Common.{
  strip, ℕ, String, Bool, not, ◌&&◌, Option, none, some, List, [], ◌∷◌, ◌++◌, map, str_eq, exists,
  select, is_some, if◌then◌else◌, Python,
}
use srkrcc_main_application.Hackathon.Model.{Raw, Answer, User, Hackathon, TeamMember, Question}
use srkrcc_main_application.Hackathon.Monad.{
  Db, Result, ok, err, Action, ◌>>=◌, ◌>>◌, pure, raise, raise_if, profile_incomplete, not_eligible,
  rules_not_accepted,
}
use Answers.{truth, look_up, clean_answers}

-- What a participant sends when creating or joining a team.
pub record RegistrationData : Type 0 where
  pub accept_rules : Raw
  pub answers : List (String × Raw)
  pub transaction_id : String
  pub payment_file_id : Option ℕ

abbrev pub is_nil {ℓ} : {A : Type ℓ} → List A → Bool
is_nil [] = Bool.true
is_nil (x ∷ xs) = Bool.false

module _ (py : Python) where
  -- One round of the loop of `check_eligibility`.
  unfoldable pub check_listed : User → List String → String → Action (Unit {0})
  check_listed user allowed key =
      let value = strip (user.profile key) in
      if is_nil allowed then pure tt else do
        raise_if (str_eq value "") profile_incomplete
        raise_if (not (exists (λ item. str_eq (py.lower item) (py.lower value)) allowed))
            not_eligible

  unfoldable pub check_eligibility : Hackathon → User → Action (Unit {0})
  check_eligibility h user = do
    check_listed user h.colleges "college"
    check_listed user h.branches "branch"
    check_listed user h.years "year"

  -- `hackathon.require_rules_acceptance and (hackathon.rules or '').strip()`
  abbrev pub rules_required : Hackathon → Bool
  rules_required h = h.require_rules_acceptance && not (str_eq (strip h.rules) "")

  unfoldable pub registration_inputs :
      Hackathon → RegistrationData → Action (Option ℕ × List (String × Answer))
  registration_inputs h data' = do
    raise_if (not (truth data'.accept_rules) && rules_required h) rules_not_accepted
    accepted_at ← λ db. ok (if truth data'.accept_rules then some db.now else none, db)
    answers ← clean_answers py h.registration_questions data'.answers
    pure (accepted_at, answers)

  -- Labels of what an existing member still owes; `none` stands for "Accept the rules".
  unfoldable pub missing_registration_details : Hackathon → TeamMember → List (Option String)
  missing_registration_details h member =
      map (λ q. some q.label)
        (select (λ q. q.required && not (is_some (look_up q.key member.answers)))
          h.registration_questions)
      ++ (if rules_required h && not (is_some member.rules_accepted_at) then none ∷ [] else [])

-- `services.missing_profile_fields`
unfoldable pub missing_profile_fields : Hackathon → User → List String
missing_profile_fields h user =
    select (λ key. str_eq (user.profile key) "") h.required_profile_fields
