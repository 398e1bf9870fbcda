-- ===== src/Forms/Layout/Compute/Grants.antt =====
-- The values, options and messages that `compute_layout` gives.
use srkrcc_main_application.Common.{
  ℕ, ◌≡◌, Bool, true, false, suc, length, ◌||◌, none, some, List, [], ◌∷◌, ◌==◌, arith, exists,
  ==→eq, Option-cases, inl, inr,
}
use srkrcc_main_application.Forms.Conditions.{Value, Reading, rendered}
use srkrcc_main_application.Forms.Conditions.Trees.{Answers}
use srkrcc_main_application.Forms.Layout.{
  Action, set_value, restrict_options, display_message, Field,
}
use srkrcc_main_application.Forms.Layout.Pages.{split_pages}
use srkrcc_main_application.Forms.Layout.Passes.{Settling}
use srkrcc_main_application.Forms.Layout.Compute.{
  granted, collect, routes, options_of, compute_layout,
}

abbrev pub is_given {ℓ} : {A : Type ℓ} → ℕ → List (ℕ × A) → Bool
is_given q ps = exists (λ p. p.0 == q) ps

module _ (R : Reading) (fields : List Field) (values : Answers) where
  granted_visible :
      (a : Action) (s : Settling) (f : Field) (v : Value)
      → granted R fields values a s f ≡ some v
      → s.visible f.id ≡ true
  unfolding granted
  granted_visible a s f v h = elim (Option-cases (f.condition)) [
    | inl n ↦ ground (arith, n)
    | inr (c, n) ↦ ground (arith, n)
  ]

  collect_visible {ℓ} :
      {A : Type ℓ} (a : Action) (read : Value → A) (s : Settling) (q : ℕ) (fs : List Field)
      → is_given q (collect R fields values a read s fs) ≡ true
      → s.visible q ≡ true
  unfolding collect
  collect_visible a read s q [] h = absurd (ground arith)
  collect_visible a read s q (f ∷ fs) h = elim (Option-cases (granted R fields values a s f)) [
    | inl n ↦ let rest = collect_visible a read s q fs in ground (arith, n, rest)
    | inr (v, n) ↦
        let here = granted_visible a s f v n in
        let rest = collect_visible a read s q fs in ground (arith, n, here, rest, ==→eq f.id q)
  ]

  -- Only a question that shows is given a value, a choice of options or a message.
  pub compute_layout_grants :
      (q : ℕ)
      → (is_given q (compute_layout R fields values).set_values
          || (is_given q (compute_layout R fields values).allowed_options
              || is_given q (compute_layout R fields values).messages))
        ≡ true
      → (compute_layout R fields values).visible_ids q ≡ true
  unfolding compute_layout
  compute_layout_grants q h =
      let empty : Settling = record {
        visible = λ q. false;
        overrides = λ q. none;
        changed = false;
      } in
      let s =
        (routes R fields values (suc (length (split_pages fields))) empty (λ i. false)).settled in
      let a = collect_visible set_value (λ v. v) s q fields in
      let b = collect_visible restrict_options options_of s q fields in
      let c = collect_visible display_message rendered s q fields in ground (arith, h, a, b, c)
