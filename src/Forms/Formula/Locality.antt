-- ===== src/Forms/Formula/Locality.antt =====
-- The questions that `evaluate` of apps/forms/validation/formula.py looks at.
use srkrcc_main_application.Common.{
  ℕ, ◌≡◌, ◌≤◌, refl, ap, Bool, true, ◌||◌, some, List, [], ◌∷◌, ◌==◌, arith, length, exists,
  Bool-cases, inl, inr, ==→eq, ==_refl,
}
use srkrcc_main_application.Forms.Formula.{
  Decimals, Token, Node, number_node, reference_node, negated, applied, parsed, parse, references,
  union_ids, insert_id, max_references, Reading, bind_value, value_of_reading, node_value, evaluate,
}

abbrev pub is_named : List ℕ → ℕ → Bool
is_named rs r = exists (λ s. s == r) rs

is_named-insert_id :
    (r q : ℕ) (rs : List ℕ) → is_named (insert_id q rs) r ≡ (q == r || is_named rs r)
is_named-insert_id r q rs = elim (Bool-cases (is_named rs q)) [
  | inl e ↦ elim (Bool-cases (q == r)) [
    | inl k ↦ ground (arith, e, k, ==→eq q r k)
    | inr k ↦ ground (arith, e, k)
  ]
  | inr e ↦ ground (arith, e)
]

is_named-union_ids :
    (r : ℕ) (qs rs : List ℕ) → is_named (union_ids qs rs) r ≡ (is_named qs r || is_named rs r)
unfolding union_ids
is_named-union_ids r [] rs = refl
is_named-union_ids r (q ∷ qs) rs =
    ground (arith, is_named-insert_id r q (union_ids qs rs), is_named-union_ids r qs rs)

parse_bounded :
    {N : Type 0} (ts : List (Token N)) (node : Node N)
    → parse ts ≡ parsed node
    → length (references node) ≤ max_references
unfolding parse
parse_bounded ts node h = ground arith

module _ (D : Decimals) where
  -- Two sets of answers that read alike at every question a tree names give it the same value.
  node_value_local :
      (a : Node D.Number) (values values' : ℕ → Reading D.Number)
      → ((r : ℕ) → is_named (references a) r ≡ true → values r ≡ values' r)
      → node_value D a values ≡ node_value D a values'
  unfolding node_value references
  node_value_local (number_node k) values values' h = refl
  node_value_local (reference_node r) values values' h =
      ap (value_of_reading D) (h r (ground (arith, ==_refl r)))
  node_value_local (negated a) values values' h =
      ap (λ v. bind_value D v (λ x. some (D.neg_of x))) (node_value_local a values values' h)
  node_value_local (applied o a b) values values' h =
      let left =
        node_value_local a values values'
          (λ r k. h r (ground (arith, is_named-union_ids r (references a) (references b)))) in
      let right =
        node_value_local b values values'
          (λ r k. h r (ground (arith, is_named-union_ids r (references a) (references b)))) in
      rw left (rw right refl)

  -- If two sets of answers read alike at every question that the parsed formula names, the formula has
  -- the same value, or none, for both. The formula names at most 30 questions.
  pub evaluate_local :
      (ts : List (Token D.Number)) (node : Node D.Number) (values values' : ℕ → Reading D.Number)
      (decimals : ℕ)
      → parse ts ≡ parsed node
      → ((r : ℕ) → is_named (references node) r ≡ true → values r ≡ values' r)
      → (evaluate D ts values decimals ≡ evaluate D ts values' decimals)
        × (length (references node) ≤ max_references)
  unfolding evaluate
  evaluate_local ts node values values' decimals h k =
      (rw (h, evaluate) (rw (node_value_local node values values' k) refl), parse_bounded ts node h)
