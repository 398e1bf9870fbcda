-- ===== src/Forms/Layout/Passes.antt =====
-- The inner loop of `compute_layout`: passes over the conditions until none changes anything.
pub mod Steps
pub mod Visits
pub mod Convergence
pub mod Outcome
pub mod Unique
use srkrcc_main_application.Common.{
  ℕ, zero, suc, Bool, true, false, not, ◌&&◌, Option, none, some, List, [], ◌∷◌, ◌==◌, length,
  exists, if◌then◌else◌,
}
use srkrcc_main_application.Forms.Conditions.{Reading}
use srkrcc_main_application.Forms.Conditions.Trees.{Rule, Answers, evaluate_tree}
use srkrcc_main_application.Forms.Layout.{
  Action, show, hide, require, optional, skip_to_section, end_form, set_value, restrict_options,
  display_message, unknown_action, Condition, Field, effective,
}

-- The sets and the dictionary that a pass updates.
pub record Settling : Type 0 where
  pub visible : ℕ → Bool
  pub overrides : ℕ → Option Bool
  pub changed : Bool

abbrev pub put {ℓ} : {A : Type ℓ} → ℕ → A → (ℕ → A) → ℕ → A
put fid x at q = if q == fid then x else at q

-- `overrides.get(f.id) != new_val`, where `new_val` is `None` or `value`
abbrev pub differs : Option Bool → Bool → Bool → Bool
differs none satisfied value = satisfied
differs (some true) satisfied value = not (satisfied && value)
differs (some false) satisfied value = not (satisfied && not value)

-- `overrides[f.id] = value` or `overrides.pop(f.id, None)`
abbrev pub override : ℕ → Bool → Bool → Settling → Settling
override fid satisfied value s =
    if differs (s.overrides fid) satisfied value
    then record s {
      overrides = put fid (if satisfied then some value else none) s.overrides;
      changed = true;
    }
    else s

-- What a condition does to its question. (`_has_show_rule` does not hold where the action is "hide".)
unfoldable pub act : Action → ℕ → Bool → Settling → Settling
act show fid satisfied s =
    if satisfied && not (s.visible fid)
    then record s { visible = put fid true s.visible; changed = true }
    else if not satisfied && s.visible fid
    then record s { visible = put fid false s.visible; changed = true }
    else s
act hide fid satisfied s =
    if satisfied && s.visible fid
    then record s { visible = put fid false s.visible; changed = true }
    else if not satisfied && not (s.visible fid)
    then record s { visible = put fid true s.visible; changed = true }
    else s
act require fid satisfied s = override fid satisfied true s
act optional fid satisfied s = override fid satisfied false s
act skip_to_section fid satisfied s = s
act end_form fid satisfied s = s
act set_value fid satisfied s = s
act restrict_options fid satisfied s = s
act display_message fid satisfied s = s
act unknown_action fid satisfied s = s

module _ (R : Reading) (hidden : ℕ → Bool) where
  -- The body of the loop over the fields; `answers` are those of the start of the pass.
  unfoldable pub visit : Answers → Field → Settling → Settling
  unfolding act
  visit answers f s = elim (f.condition) [
    | none ↦ s
    | some c ↦ if hidden f.id then s else act c.action f.id (evaluate_tree R c.tree answers) s
  ]

  unfoldable pub visit_all : Answers → List Field → Settling → Settling
  unfolding visit
  visit_all answers [] s = s
  visit_all answers (f ∷ fs) s = visit_all answers fs (visit answers f s)

-- The start: every field that is not hidden, and no override.
unfoldable pub start : (ℕ → Bool) → List Field → Settling
start hidden fields = record {
  visible = λ q. exists (λ f. f.id == q) fields && not (hidden q);
  overrides = λ q. none;
  changed = true;
}

module _ (R : Reading) (values : Answers) (hidden : ℕ → Bool) where
  unfoldable pub one_pass : List Field → Settling → Settling
  unfolding visit_all effective
  one_pass fields s =
      visit_all R hidden (effective values s.visible) fields (record s { changed = false })

  -- At most so many passes, until one changes nothing.
  unfoldable pub passes : ℕ → List Field → Settling → Settling
  unfolding one_pass
  passes zero fields s = s
  passes (suc n) fields s =
      let next = one_pass fields s in
      elim (next.changed) [ true ↦ passes n fields next | false ↦ next ]

  unfoldable pub settle : List Field → Settling
  unfolding passes start
  settle fields = passes (suc (length fields)) fields (start hidden fields)
