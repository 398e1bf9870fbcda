-- ===== src/Hackathon/Team/Problem.antt =====
-- The problem that a team works on: an organizer's statement, or open innovation with its own
-- (`_check_problem_statement`, `_clean_open_innovation` and `_resolve_problem` of services.py).
use srkrcc_main_application.Common.{
  len, strip, ℕ, String, Bool, true, false, not, ◌&&◌, Option, none, some, List, ◌==◌, leb, ltb,
  is_at, str_eq, exists, first, count, is_some, if◌then◌else◌, Python,
}
use srkrcc_main_application.Hackathon.Model.{Team, is_active}
use srkrcc_main_application.Hackathon.Monad.{
  Action, ◌>>=◌, ◌>>◌, pure, raise, raise_if, or_raise, problem_not_available, problem_full,
  problem_required, problem_conflict, open_innovation_disabled, open_innovation_incomplete,
  open_innovation_too_long, problems_not_revealed,
}
use srkrcc_main_application.Hackathon.Store.{before}
use srkrcc_main_application.Hackathon.Registration.Capacity.{limit_of}

abbrev pub max_problem_title : ℕ
max_problem_title = 255

abbrev pub max_problem_domain : ℕ
max_problem_domain = 100

abbrev pub max_problem_description : ℕ
max_problem_description = 5000

-- The title, description and domain of an open-innovation problem, as sent or as cleaned.
pub record OpenInnovation : Type 0 where
  pub title : String
  pub description : String
  pub domain : String

-- The `Team` fields that a problem choice sets.
pub record Problem : Type 0 where
  pub problem_statement : Option ℕ
  pub is_open_innovation : Bool
  pub custom : OpenInnovation

abbrev blank_custom : OpenInnovation
blank_custom = record { title = ""; description = ""; domain = "" }

-- The team given as `exclude_team`, or nobody.
abbrev pub is_excluded : Option Team → Team → Bool
is_excluded none t = false
is_excluded (some team) t = t.pk == team.pk

-- `exclude_team.problem_statement_id == ps.id`
abbrev pub already_holds : Option Team → ℕ → Bool
already_holds none ps = false
already_holds (some team) ps = is_at team.problem_statement ps

-- The other active teams that hold a statement.
unfoldable pub holders : List Team → Option Team → ℕ → ℕ
holders teams exclude ps =
    count (λ t. is_at t.problem_statement ps && is_active t.status && not (is_excluded exclude t))
      teams

-- A statement of another hackathon is not among the rows, so it is not available.
unfoldable pub check_problem_statement : ℕ → Option Team → Action (Unit {0})
check_problem_statement pk exclude db =
    if already_holds exclude pk
    then pure tt db
    else (do
      ps ← or_raise (first (λ p. p.pk == pk) db.problem_statements) problem_not_available
      raise_if (not ps.is_active) problem_not_available
      raise_if
          (not (limit_of ps.max_teams == 0)
            && leb (limit_of ps.max_teams) (holders db.teams exclude pk))
          problem_full)
        db

unfoldable pub require_problems_revealed : Option ℕ → Action (Unit {0})
require_problems_revealed choice db =
    raise_if (is_some choice && before db.now db.hackathon.problem_statements_reveal_at)
      problems_not_revealed db

module _ (py : Python) where
  unfoldable pub clean_text : String → ℕ → Action String
  clean_text sent limit =
      let value = strip sent in
      do
        raise_if (str_eq value "") open_innovation_incomplete
        raise_if (ltb limit (len value)) open_innovation_too_long
        pure value

  unfoldable pub clean_open_innovation : OpenInnovation → Action OpenInnovation
  clean_open_innovation sent = do
    title ← clean_text sent.title max_problem_title
    description ← clean_text sent.description max_problem_description
    domain ← clean_text sent.domain max_problem_domain
    pure (record { title = title; description = description; domain = domain })

  -- `open_innovation` is `none` where the source's dictionary is empty or `None`.
  unfoldable pub resolve_problem : Option ℕ → Option OpenInnovation → Option Team → Action Problem
  resolve_problem (some ps) (some own) exclude = raise problem_conflict
  resolve_problem none (some own) exclude = λ db.
      (do
        raise_if (not db.hackathon.allow_open_innovation) open_innovation_disabled
        cleaned ← clean_open_innovation own
        pure (record { problem_statement = none; is_open_innovation = true; custom = cleaned }))
        db
  resolve_problem (some ps) none exclude = do
    check_problem_statement ps exclude
    pure (record { problem_statement = some ps; is_open_innovation = false; custom = blank_custom })
  resolve_problem none none exclude = λ db.
      (do
        raise_if (exists (λ p. p.is_active) db.problem_statements) problem_required
        pure (record {
          problem_statement = none;
          is_open_innovation = false;
          custom = blank_custom;
        }))
        db
