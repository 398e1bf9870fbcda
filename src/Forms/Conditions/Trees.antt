-- ===== src/Forms/Conditions/Trees.antt =====
-- `_evaluate_node` and `evaluate_tree` of apps/forms/validation/conditional.py.
pub mod Watching
use srkrcc_main_application.Common.{
  ℕ, Bool, true, false, not, ◌&&◌, ◌||◌, Option, none, some, List, [], ◌∷◌, is_some, exists,
  if◌then◌else◌,
}
use srkrcc_main_application.Forms.Conditions.{
  Value, missing, Reading, Operator, equals, not_equals, gt, gte, lt, lte, between, not_between,
  date_between, contains, not_contains, starts_with, ends_with, matches_regex, not_matches_regex,
  is_empty, is_not_empty, selected, includes, not_selected, not_includes, includes_any,
  includes_all, before, after, on, before_or_equal, after_or_equal, unknown_operator, is_blank,
  evaluate_operator,
}

-- A normalized rule: a test of the answer to `field`, against `value` or the answer to `value_field`, or
-- a group of rules.
mutual
  pub data Rule : Type 0 where
    leaf : Option ℕ → Operator → Value → Option ℕ → Rule
    group : Bool → Rules → Rule  -- whether `logic` is "OR"

  pub data Rules : Type 0 where
    no_rules : Rules
    rule : Rule → Rules → Rules

-- The submitted answers: `missing` where there is none.
abbrev pub Answers : Type 0
Answers = ℕ → Value

-- `operator in _EMPTY_OK_OPERATORS`
abbrev pub is_empty_ok : Operator → Bool
is_empty_ok is_empty = true
is_empty_ok is_not_empty = true
is_empty_ok _ = false

abbrev pub right_of : Value → Option ℕ → Answers → Value
right_of value none values = value
right_of value (some g) values = values g

abbrev pub all_true : List Bool → Bool
all_true [] = true
all_true (b ∷ bs) = b && all_true bs

-- `None` where no rule of the group can be evaluated.
abbrev pub combine : Bool → List Bool → Option Bool
combine either [] = none
combine either (b ∷ bs) = some (if either then exists (λ x. x) (b ∷ bs) else all_true (b ∷ bs))

abbrev pub keep_some : Option Bool → List Bool → List Bool
keep_some none bs = bs
keep_some (some b) bs = b ∷ bs

module _ (R : Reading) where
  unfoldable pub evaluate_leaf : Option ℕ → Operator → Value → Option ℕ → Answers → Option Bool
  evaluate_leaf none op value vf values = none
  evaluate_leaf (some f) op value vf values =
      let left = values f in
      let right = right_of value vf values in
      some (
        if is_some vf && not (is_empty_ok op) && is_blank right
        then false
        else if not (is_empty_ok op) && is_blank left
        then false
        else evaluate_operator R op left right)

  unfoldable mutual
    pub evaluate_node : Rule → Answers → Option Bool
    evaluate_node (leaf f op value vf) values = evaluate_leaf f op value vf values
    evaluate_node (group either rs) values = combine either (usable rs values)

    -- `[r for r in results if r is not None]`
    pub usable : Rules → Answers → List Bool
    usable no_rules values = []
    usable (rule r rs) values = keep_some (evaluate_node r values) (usable rs values)

  -- A condition that cannot be evaluated is satisfied, as is one without `rules`.
  unfoldable pub evaluate_tree : Rule → Answers → Bool
  unfolding evaluate_node
  evaluate_tree (leaf f op value vf) values = true
  evaluate_tree (group either rs) values = elim (evaluate_node (group either rs) values) [
    | none ↦ true
    | some b ↦ b
  ]
