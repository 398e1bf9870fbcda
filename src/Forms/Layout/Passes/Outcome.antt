-- ===== src/Forms/Layout/Passes/Outcome.antt =====
-- Which questions show once the conditions have settled, and which are forced required or optional.
use mathlib.Core.List.{Memᴰ}
use srkrcc_main_application.Common.{
  ℕ, zero, suc, ◌≡◌, refl, sym, ap, ◌∙◌, subst, Bool, true, false, not, Option, none, some, List,
  arith, ◌==◌, exists, length, Bool-cases, Option-cases, inl, inr,
}
use srkrcc_main_application.Common.Rows.Laws.{Distinct}
use srkrcc_main_application.Forms.Conditions.{Reading}
use srkrcc_main_application.Forms.Conditions.Trees.{Answers, evaluate_tree}
use srkrcc_main_application.Forms.Layout.{Action, show, hide, require, optional, Field, effective}
use srkrcc_main_application.Forms.Layout.Passes.{Settling, one_pass, passes, start, settle}
use srkrcc_main_application.Forms.Layout.Passes.Steps.{shown, forced}
use srkrcc_main_application.Forms.Layout.Passes.Visits.{
  field_id, active_condition, next_visible, next_override, Stable, visit_all_elsewhere,
  visit_all_lem, visit_all_same, exists_mem,
}
use srkrcc_main_application.Forms.Layout.Passes.Convergence.{visible_by_twice, override_by_twice}

-- What an action means for a question whose condition is satisfied, or not.
abbrev pub visible_where : Action → Bool → Bool
visible_where show satisfied = satisfied
visible_where hide satisfied = not satisfied
visible_where _ satisfied = true

abbrev pub forced_where : Action → Bool → Option Bool
forced_where require true = some true
forced_where optional true = some false
forced_where _ _ = none

shown_at_start : (a : Action) (b : Bool) → shown a b true ≡ visible_where a b
shown_at_start a b = ground arith

forced_at_start : (a : Action) (b : Bool) → forced a b none ≡ forced_where a b
forced_at_start a b = ground arith

module _ (R : Reading) (values : Answers) (hidden : ℕ → Bool) (fields : List Field) where
  -- Whether a question should show, and what its condition forces, where `visible` are the ones that do.
  abbrev pub should_show : (ℕ → Bool) → Field → Bool
  should_show visible f = elim (hidden f.id) [
    | true ↦ false
    | false ↦ elim (f.condition) [
      | none ↦ true
      | some c ↦ visible_where c.action (evaluate_tree R c.tree (effective values visible))
    ]
  ]

  abbrev pub should_force : (ℕ → Bool) → Field → Option Bool
  should_force visible f = elim (hidden f.id) [
    | true ↦ none
    | false ↦ elim (f.condition) [
      | none ↦ none
      | some c ↦ forced_where c.action (evaluate_tree R c.tree (effective values visible))
    ]
  ]

  -- The meaning of the conditions: each question shows, and is forced required or optional, just where
  -- its condition says so of the answers to the questions that show.
  pub record Meets (visible : ℕ → Bool) (overrides : ℕ → Option Bool) : Type 0 where
    pub shows : (f : Field) → Memᴰ f fields → visible f.id ≡ should_show visible f
    pub forces : (f : Field) → Memᴰ f fields → overrides f.id ≡ should_force visible f
    pub hides_others : (q : ℕ) → exists (λ g. g.id == q) fields ≡ false → visible q ≡ false
    pub forces_no_other : (q : ℕ) → exists (λ g. g.id == q) fields ≡ false → overrides q ≡ none

  -- A state that the passes can reach from the start.
  record Begun (s : Settling) : Type 0 where
    visible_start :
        (e : Answers) (f : Field)
        → Memᴰ f fields
        → next_visible R hidden e f (s.visible f.id) ≡ next_visible R hidden e f (not (hidden f.id))
    override_start :
        (e : Answers) (f : Field)
        → Memᴰ f fields
        → next_override R hidden e f (s.overrides f.id) ≡ next_override R hidden e f none
    no_other :
        (q : ℕ)
        → exists (λ g. g.id == q) fields ≡ false
        → (s.visible q ≡ false) × (s.overrides q ≡ none)

  Begun-start : Begun (start hidden fields)
  unfolding start
  Begun-start = record {
    visible_start =
        λ e f m. ap (next_visible R hidden e f) (ground (arith, exists_mem f.id f fields m));
    override_start = λ e f m. refl;
    no_other = λ q n. (ground arith, refl);
  }

  Begun-one_pass :
      (s : Settling)
      → Distinct field_id fields
      → Begun s
      → Begun (one_pass R values hidden fields s)
  unfolding one_pass
  Begun-one_pass s d b =
      let e' = effective values s.visible in
      let s' = record s { changed = false } in
      record {
        visible_start = λ e f m.
            ap (next_visible R hidden e f) (visit_all_lem R hidden e' f fields s' d m).0
            ∙ visible_by_twice R (active_condition hidden f) e e' (s.visible f.id)
            ∙ b.visible_start e f m;
        override_start = λ e f m.
            ap (next_override R hidden e f) (visit_all_lem R hidden e' f fields s' d m).1
            ∙ override_by_twice R (active_condition hidden f) e e' (s.overrides f.id)
            ∙ b.override_start e f m;
        no_other = λ q n.
            let k = visit_all_elsewhere R hidden e' q fields s' n in
            (k.0 ∙ (b.no_other q n).0, k.1 ∙ (b.no_other q n).1);
      }

  abbrev AllStable : Settling → Type 0
  AllStable s = (f : Field) → Memᴰ f fields → Stable R hidden (effective values s.visible) s f

  AllStable-one_pass :
      (s : Settling)
      → Distinct field_id fields
      → (one_pass R values hidden fields s).changed ≡ false
      → AllStable (one_pass R values hidden fields s)
  unfolding one_pass
  AllStable-one_pass s d h =
      let e = effective values s.visible in
      let s' : Settling = record s { changed = false } in
      let same = visit_all_same R hidden e fields s' h in
      subst AllStable (sym same) (λ f m.
        let own = visit_all_lem R hidden e f fields s' d m in
        (sym own.0 ∙ ap (λ t. t.visible f.id) same, sym own.1 ∙ ap (λ t. t.overrides f.id) same))

  abbrev Ended : Settling → Type 0
  Ended s = Begun s × AllStable s

  passes_none :
      (s : Settling) → s.changed ≡ true → (passes R values hidden zero fields s).changed ≡ false → ⊥
  unfolding passes
  passes_none s c h = ground arith

  passes_stop :
      (n : ℕ) (s : Settling)
      → (one_pass R values hidden fields s).changed ≡ false
      → passes R values hidden (suc n) fields s ≡ one_pass R values hidden fields s
  unfolding passes
  passes_stop n s e = ground (arith, e)

  passes_go :
      (n : ℕ) (s : Settling)
      → (one_pass R values hidden fields s).changed ≡ true
      → passes R values hidden (suc n) fields s
        ≡ passes R values hidden n fields (one_pass R values hidden fields s)
  unfolding passes
  passes_go n s e = ground (arith, e)

  passes_end :
      (n : ℕ) (s : Settling)
      → Distinct field_id fields
      → Begun s
      → s.changed ≡ true
      → (passes R values hidden n fields s).changed ≡ false
      → Ended (passes R values hidden n fields s)
  passes_end zero s d b c h = absurd (passes_none s c h)
  passes_end (suc n) s d b c h =
      let next = one_pass R values hidden fields s in
      elim (Bool-cases next.changed) [
        | inl e ↦ subst Ended (sym (passes_go n s e)) (
            passes_end n next d (Begun-one_pass s d b) e
              (sym (ap (λ t. t.changed) (passes_go n s e)) ∙ h))
        | inr e ↦
            subst Ended (sym (passes_stop n s e)) (Begun-one_pass s d b, AllStable-one_pass s d e)
      ]

  Ended-settle :
      Distinct field_id fields
      → (settle R values hidden fields).changed ≡ false
      → Ended (settle R values hidden fields)
  unfolding settle start
  Ended-settle d h = passes_end (suc (length fields)) (start hidden fields) d Begun-start refl h

  pub visible_by_should :
      (v : ℕ → Bool) (f : Field)
      → next_visible R hidden (effective values v) f (not (hidden f.id)) ≡ should_show v f
  visible_by_should v f = elim (Option-cases (f.condition)) [
    | inl n ↦ ground (arith, n)
    | inr (c, n) ↦
        ground (arith, n, shown_at_start c.action (evaluate_tree R c.tree (effective values v)))
  ]

  pub override_by_should :
      (v : ℕ → Bool) (f : Field)
      → next_override R hidden (effective values v) f none ≡ should_force v f
  override_by_should v f = elim (Option-cases (f.condition)) [
    | inl n ↦ ground (arith, n)
    | inr (c, n) ↦
        ground (arith, n, forced_at_start c.action (evaluate_tree R c.tree (effective values v)))
  ]

  -- Passes that end without a change leave a layout that meets the conditions.
  pub Meets-settle :
      Distinct field_id fields
      → (settle R values hidden fields).changed ≡ false
      → Meets (settle R values hidden fields).visible (settle R values hidden fields).overrides
  Meets-settle d h =
      let s = settle R values hidden fields in
      let e = effective values s.visible in
      let (b, stable) = Ended-settle d h in
      record {
        shows = λ f m. sym (stable f m).0 ∙ b.visible_start e f m ∙ visible_by_should s.visible f;
        forces =
            λ f m. sym (stable f m).1 ∙ b.override_start e f m ∙ override_by_should s.visible f;
        hides_others = λ q n. (b.no_other q n).0;
        forces_no_other = λ q n. (b.no_other q n).1;
      }
