-- ===== src/Forms/Conditions/Trees/Watching.antt =====
-- The answers that a condition watches.
use srkrcc_main_application.Common.{
  ℕ, ◌≡◌, refl, ap, Bool, true, false, ◌||◌, Option, none, some, arith, is_at, ==_refl,
}
use srkrcc_main_application.Forms.Conditions.{Value, Reading, Operator}
use srkrcc_main_application.Forms.Conditions.Trees.{
  Rule, Rules, leaf, group, no_rules, rule, Answers, right_of, combine, evaluate_leaf,
  evaluate_node, usable, evaluate_tree,
}

-- Whether a rule names the question `q`, as the one it tests or the one it compares with.
unfoldable mutual
  pub watches : Rule → ℕ → Bool
  watches (leaf f op value vf) q = is_at f q || is_at vf q
  watches (group either rs) q = any_watches rs q

  pub any_watches : Rules → ℕ → Bool
  any_watches no_rules q = false
  any_watches (rule r rs) q = watches r q || any_watches rs q

-- Two sets of answers that a rule cannot tell apart.
abbrev pub Agree : Rule → Answers → Answers → Type 0
Agree r v w = (q : ℕ) → watches r q ≡ true → v q ≡ w q

right_of_local :
    (value : Value) (vf : Option ℕ) (v w : Answers)
    → ((q : ℕ) → is_at vf q ≡ true → v q ≡ w q)
    → right_of value vf v ≡ right_of value vf w
right_of_local value none v w h = refl
right_of_local value (some g) v w h = h g (==_refl g)

module _ (R : Reading) where
  evaluate_leaf_local :
      (f : Option ℕ) (op : Operator) (value : Value) (vf : Option ℕ) (v w : Answers)
      → ((q : ℕ) → (is_at f q || is_at vf q) ≡ true → v q ≡ w q)
      → evaluate_leaf R f op value vf v ≡ evaluate_leaf R f op value vf w
  unfolding evaluate_leaf
  evaluate_leaf_local none op value vf v w h = refl
  evaluate_leaf_local (some f) op value vf v w h =
      rw (h f (ground (arith, ==_refl f)))
        (rw (right_of_local value vf v w (λ q k. h q (ground (arith, k)))) refl)

  mutual
    unfolding watches evaluate_node

    pub evaluate_node_local :
        (r : Rule) (v w : Answers) → Agree r v w → evaluate_node R r v ≡ evaluate_node R r w
    evaluate_node_local (leaf f op value vf) v w h = evaluate_leaf_local f op value vf v w h
    evaluate_node_local (group either rs) v w h = ap (combine either) (usable_local rs v w h)

    usable_local :
        (rs : Rules) (v w : Answers)
        → ((q : ℕ) → any_watches rs q ≡ true → v q ≡ w q)
        → usable R rs v ≡ usable R rs w
    usable_local no_rules v w h = refl
    usable_local (rule r rs) v w h =
        rw (evaluate_node_local r v w (λ q k. h q (ground (arith, k))))
          (rw (usable_local rs v w (λ q k. h q (ground (arith, k)))) refl)

  -- A condition has the same value for two sets of answers that agree on the questions it names.
  pub evaluate_tree_local :
      (r : Rule) (v w : Answers) → Agree r v w → evaluate_tree R r v ≡ evaluate_tree R r w
  unfolding evaluate_tree
  evaluate_tree_local (leaf f op value vf) v w h = refl
  evaluate_tree_local (group either rs) v w h =
      rw (evaluate_node_local (group either rs) v w h, evaluate_tree) refl
