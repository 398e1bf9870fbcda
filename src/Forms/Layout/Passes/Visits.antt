-- ===== src/Forms/Layout/Passes/Visits.antt =====
-- What the visits of one pass leave for each field.
use mathlib.Core.List.{Memᴰ}
use mathlib.Core.List.Memᴰ.{head, tail}
use srkrcc_main_application.Common.{
  ℕ, ◌≡◌, refl, sym, ap, ◌∙◌, subst, Bool, true, false, Option, none, some, List, [], ◌∷◌, arith,
  ◌==◌, ==_refl, exists, Bool-cases, Option-cases, inl, inr,
}
use srkrcc_main_application.Common.Rows.Laws.{Distinct}
use srkrcc_main_application.Forms.Conditions.{Reading}
use srkrcc_main_application.Forms.Conditions.Trees.{Answers, evaluate_tree}
use srkrcc_main_application.Forms.Layout.{Condition, Field}
use srkrcc_main_application.Forms.Layout.Passes.{Settling, visit, visit_all}
use srkrcc_main_application.Forms.Layout.Passes.Steps.{
  shown, forced, visible-act, overrides-act, act_elsewhere, act_unchanged, act_same,
}

abbrev pub field_id : Field → ℕ
field_id f = f.id

-- The condition that is visited: that of a field that is not hidden.
abbrev pub active_condition : (ℕ → Bool) → Field → Option Condition
active_condition hidden f = elim (hidden f.id) [ true ↦ none | false ↦ f.condition ]

pub exists_mem :
    (q : ℕ) (f : Field) (fs : List Field) → Memᴰ f fs → f.id ≡ q → exists (λ g. g.id == q) fs ≡ true
exists_mem q f [] m h = elim m [ ]
exists_mem q f (g ∷ fs) (head e) h = rw (sym e) (rw h (ground (arith, ==_refl q)))
exists_mem q f (g ∷ fs) (tail m) h = ground (arith, exists_mem q f fs m h)

module _ (R : Reading) where
  abbrev pub visible_by : Option Condition → Answers → Bool → Bool
  visible_by none answers was = was
  visible_by (some c) answers was = shown c.action (evaluate_tree R c.tree answers) was

  abbrev pub override_by : Option Condition → Answers → Option Bool → Option Bool
  override_by none answers was = was
  override_by (some c) answers was = forced c.action (evaluate_tree R c.tree answers) was

module _ (R : Reading) (hidden : ℕ → Bool) where
  -- Whether a field shows after its visit, and the override of its `is_required`, by what they were.
  abbrev pub next_visible : Answers → Field → Bool → Bool
  next_visible answers f was = visible_by R (active_condition hidden f) answers was

  abbrev pub next_override : Answers → Field → Option Bool → Option Bool
  next_override answers f was = override_by R (active_condition hidden f) answers was

  visible-visit :
      (e : Answers) (f : Field) (s : Settling)
      → (visit R hidden e f s).visible f.id ≡ next_visible e f (s.visible f.id)
  unfolding visit
  visible-visit e f s = elim (Option-cases (f.condition)) [
    | inl n ↦ rw n (ground arith)
    | inr (c, n) ↦ rw n (ground (arith, visible-act c.action f.id (evaluate_tree R c.tree e) s))
  ]

  overrides-visit :
      (e : Answers) (f : Field) (s : Settling)
      → (visit R hidden e f s).overrides f.id ≡ next_override e f (s.overrides f.id)
  unfolding visit
  overrides-visit e f s = elim (Option-cases (f.condition)) [
    | inl n ↦ rw n (ground arith)
    | inr (c, n) ↦ rw n (ground (arith, overrides-act c.action f.id (evaluate_tree R c.tree e) s))
  ]

  visit_elsewhere :
      (e : Answers) (f : Field) (q : ℕ) (s : Settling)
      → (q == f.id) ≡ false
      → ((visit R hidden e f s).visible q ≡ s.visible q)
        × ((visit R hidden e f s).overrides q ≡ s.overrides q)
  unfolding visit
  visit_elsewhere e f q s h = elim (Option-cases (f.condition)) [
    | inl n ↦ rw n (refl, refl)
    | inr (c, n) ↦ rw n (
        let k = act_elsewhere c.action f.id q (evaluate_tree R c.tree e) s h in
        (ground (arith, k), ground (arith, k)))
  ]

  visit_same :
      (e : Answers) (f : Field) (s : Settling)
      → (visit R hidden e f s).changed ≡ false
      → visit R hidden e f s ≡ s
  unfolding visit
  visit_same e f s h = elim (Option-cases (f.condition)) [
    | inl n ↦ rw n refl
    | inr (c, n) ↦ elim (Bool-cases (hidden f.id)) [
      | inl k ↦ rw n (rw k refl)
      | inr k ↦
          rw n (rw k (act_same c.action f.id (evaluate_tree R c.tree e) s (rw k at (rw n at h))))
    ]
  ]

  -- A visit that changes nothing.
  abbrev pub Stable : Answers → Settling → Field → Type 0
  Stable e s f =
      (next_visible e f (s.visible f.id) ≡ s.visible f.id)
      × (next_override e f (s.overrides f.id) ≡ s.overrides f.id)

  visit_unchanged :
      (e : Answers) (f : Field) (s : Settling)
      → s.changed ≡ false
      → Stable e s f
      → (visit R hidden e f s).changed ≡ false
  unfolding visit
  visit_unchanged e f s h (v, o) = elim (Option-cases (f.condition)) [
    | inl n ↦ rw n h
    | inr (c, n) ↦
        ground (arith, v, o, n, act_unchanged c.action f.id (evaluate_tree R c.tree e) s h)
  ]

  pub visit_all_elsewhere :
      (e : Answers) (q : ℕ) (fs : List Field) (s : Settling)
      → exists (λ g. g.id == q) fs ≡ false
      → ((visit_all R hidden e fs s).visible q ≡ s.visible q)
        × ((visit_all R hidden e fs s).overrides q ≡ s.overrides q)
  unfolding visit_all
  visit_all_elsewhere e q [] s h = (refl, refl)
  visit_all_elsewhere e q (f ∷ fs) s h =
      let k = visit_all_elsewhere e q fs (visit R hidden e f s) (ground arith) in
      let j = visit_elsewhere e f q s (ground arith) in (k.0 ∙ j.0, k.1 ∙ j.1)

  -- Each field's own visit decides on it.
  pub visit_all_lem :
      (e : Answers) (f : Field) (fs : List Field) (s : Settling)
      → Distinct field_id fs
      → Memᴰ f fs
      → ((visit_all R hidden e fs s).visible f.id ≡ next_visible e f (s.visible f.id))
        × ((visit_all R hidden e fs s).overrides f.id ≡ next_override e f (s.overrides f.id))
  unfolding visit_all
  visit_all_lem e f [] s d m = elim m [ ]
  visit_all_lem e f (g ∷ fs) s d (head h) =
      let k = visit_all_elsewhere e g.id fs (visit R hidden e g s) d.0 in
      rw h (k.0 ∙ visible-visit e g s, k.1 ∙ overrides-visit e g s)
  visit_all_lem e f (g ∷ fs) s d (tail m) =
      let k = visit_all_lem e f fs (visit R hidden e g s) d.1 m in
      let j = visit_elsewhere e g f.id s (ground (arith, d.0, exists_mem g.id f fs m)) in
      (k.0 ∙ ap (next_visible e f) j.0, k.1 ∙ ap (next_override e f) j.1)

  pub visit_all_same :
      (e : Answers) (fs : List Field) (s : Settling)
      → (visit_all R hidden e fs s).changed ≡ false
      → visit_all R hidden e fs s ≡ s
  unfolding visit_all
  visit_all_same e [] s h = refl
  visit_all_same e (f ∷ fs) s h =
      let k = visit_all_same e fs (visit R hidden e f s) h in
      k ∙ visit_same e f s (sym (ap (λ t. t.changed) k) ∙ h)

  pub visit_all_unchanged :
      (e : Answers) (fs : List Field) (s : Settling)
      → s.changed ≡ false
      → ((f : Field) → Memᴰ f fs → Stable e s f)
      → (visit_all R hidden e fs s).changed ≡ false
  unfolding visit_all
  visit_all_unchanged e [] s h a = h
  visit_all_unchanged e (f ∷ fs) s h a =
      let u = visit_unchanged e f s h (a f (head refl)) in
      let same = visit_same e f s u in
      subst (λ t. (visit_all R hidden e fs t).changed ≡ false) (sym same)
        (visit_all_unchanged e fs s h (λ g m. a g (tail m)))
