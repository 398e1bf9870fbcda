-- ===== src/Forms/Layout/Passes/Convergence.antt =====
-- How many passes the conditions of a form need.
use mathlib.Core.List.{Memᴰ}
use mathlib.Core.List.Memᴰ.{head, tail}
use srkrcc_main_application.Common.{
  ℕ, zero, suc, ◌+◌, ◌<◌, ◌≡◌, refl, sym, ap, ◌∙◌, Bool, true, false, Option, none, some, List, [],
  ◌∷◌, arith, ◌==◌, exists, length, Bool-cases, inl, inr, ==→eq,
}
use srkrcc_main_application.Common.Rows.Laws.{Distinct}
use srkrcc_main_application.Forms.Conditions.{Reading}
use srkrcc_main_application.Forms.Conditions.Trees.{Answers, evaluate_tree}
use srkrcc_main_application.Forms.Conditions.Trees.Watching.{watches, Agree, evaluate_tree_local}
use srkrcc_main_application.Forms.Layout.{Action, Condition, Field, effective}
use srkrcc_main_application.Forms.Layout.Passes.{Settling, one_pass, passes, start, settle}
use srkrcc_main_application.Forms.Layout.Passes.Steps.{shown, forced}
use srkrcc_main_application.Forms.Layout.Passes.Visits.{
  field_id, active_condition, visible_by, override_by, next_visible, next_override, Stable,
  visit_all_elsewhere, visit_all_lem, visit_all_unchanged,
}

-- Conditions without a circle: `rank` grows from the questions that a condition names to its own.
pub record Ranked (rank : ℕ → ℕ) (fields : List Field) : Type 0 where
  pub falls :
      (f g : Field) (c : Condition)
      → Memᴰ f fields
      → Memᴰ g fields
      → f.condition ≡ some c
      → watches c.tree g.id ≡ true
      → rank g.id < rank f.id
  pub bounded : (f : Field) → Memᴰ f fields → rank f.id < length fields

pub mem_of_exists :
    (q : ℕ) (fs : List Field)
    → exists (λ g. g.id == q) fs ≡ true
    → (g : Field) × (Memᴰ g fs × (g.id ≡ q))
mem_of_exists q [] h = absurd (ground arith)
mem_of_exists q (g ∷ fs) h = elim (Bool-cases (g.id == q)) [
  | inl e ↦ (g, (head refl, ==→eq g.id q e))
  | inr e ↦ let (f, (m, k)) = mem_of_exists q fs (rw e at h) in (f, (tail m, k))
]

shown_twice : (a : Action) (b c : Bool) (was : Bool) → shown a b (shown a c was) ≡ shown a b was
shown_twice a b c was = ground arith

forced_twice :
    (a : Action) (b c : Bool) (was : Option Bool) → forced a b (forced a c was) ≡ forced a b was
forced_twice a b c was = ground arith

-- Visibilities that a condition cannot tell apart.
pub effective-Agree :
    (values : Answers) (c : Condition) (v w : ℕ → Bool)
    → ((q : ℕ) → watches c.tree q ≡ true → v q ≡ w q)
    → Agree c.tree (effective values v) (effective values w)
unfolding effective
effective-Agree values c v w h q k = rw (h q k, effective) refl

module _ (R : Reading) where
  pub visible_by_twice :
      (o : Option Condition) (e e' : Answers) (was : Bool)
      → visible_by R o e (visible_by R o e' was) ≡ visible_by R o e was
  visible_by_twice none e e' was = refl
  visible_by_twice (some c) e e' was =
      shown_twice c.action (evaluate_tree R c.tree e) (evaluate_tree R c.tree e') was

  pub override_by_twice :
      (o : Option Condition) (e e' : Answers) (was : Option Bool)
      → override_by R o e (override_by R o e' was) ≡ override_by R o e was
  override_by_twice none e e' was = refl
  override_by_twice (some c) e e' was =
      forced_twice c.action (evaluate_tree R c.tree e) (evaluate_tree R c.tree e') was

  pub visible_by_local :
      (o : Option Condition) (e e' : Answers) (was : Bool)
      → ((c : Condition) → o ≡ some c → Agree c.tree e e')
      → visible_by R o e was ≡ visible_by R o e' was
  visible_by_local none e e' was h = refl
  visible_by_local (some c) e e' was h =
      ap (λ b. shown c.action b was) (evaluate_tree_local R c.tree e e' (h c refl))

  pub override_by_local :
      (o : Option Condition) (e e' : Answers) (was : Option Bool)
      → ((c : Condition) → o ≡ some c → Agree c.tree e e')
      → override_by R o e was ≡ override_by R o e' was
  override_by_local none e e' was h = refl
  override_by_local (some c) e e' was h =
      ap (λ b. forced c.action b was) (evaluate_tree_local R c.tree e e' (h c refl))

pub active_condition-some :
    (hidden : ℕ → Bool) (f : Field) (c : Condition)
    → active_condition hidden f ≡ some c
    → f.condition ≡ some c
active_condition-some hidden f c h = ground arith

module _ (R : Reading) (values : Answers) (hidden : ℕ → Bool) (rank : ℕ → ℕ)
    (fields : List Field) where
  -- The fields of rank below `k` have their final state.
  abbrev pub SettledBelow : ℕ → Settling → Type 0
  SettledBelow k s =
      (f : Field) → Memᴰ f fields → rank f.id < k → Stable R hidden (effective values s.visible) s f

  one_pass_keeps :
      (k : ℕ) (s : Settling) (q : ℕ)
      → Distinct field_id fields
      → SettledBelow k s
      → ((g : Field) → Memᴰ g fields → g.id ≡ q → rank g.id < k)
      → (one_pass R values hidden fields s).visible q ≡ s.visible q
  unfolding one_pass
  one_pass_keeps k s q d h low = elim (Bool-cases (exists (λ g. g.id == q) fields)) [
    | inr n ↦
        (visit_all_elsewhere R hidden (effective values s.visible) q fields
          (record s { changed = false }) n).0
    | inl y ↦
        let (g, (m, e)) = mem_of_exists q fields y in
        let own =
          visit_all_lem R hidden (effective values s.visible) g fields
            (record s { changed = false }) d m in
        rw (sym e) (own.0 ∙ (h g m (low g m e)).0)
  ]

  SettledBelow-one_pass :
      (k : ℕ) (s : Settling)
      → Distinct field_id fields
      → Ranked rank fields
      → SettledBelow k s
      → SettledBelow (suc k) (one_pass R values hidden fields s)
  unfolding one_pass
  SettledBelow-one_pass k s d r h f m low =
      let e = effective values s.visible in
      let next = one_pass R values hidden fields s in
      let own = visit_all_lem R hidden e f fields (record s { changed = false }) d m in
      let o = active_condition hidden f in
      let agree : (c : Condition) → o ≡ some c → Agree c.tree (effective values next.visible) e =
        λ c n. effective-Agree values c next.visible s.visible (λ q w.
          one_pass_keeps k s q d h (λ g j i. omega (
            arith,
            low,
            r.falls f g c m j (active_condition-some hidden f c n) (rw (sym i) at w),
          ))) in
      (
        visible_by_local R o (effective values next.visible) e (next.visible f.id) agree
            ∙ ap (next_visible R hidden e f) own.0
            ∙ visible_by_twice R o e e (s.visible f.id)
            ∙ sym own.0,
        override_by_local R o (effective values next.visible) e (next.overrides f.id) agree
            ∙ ap (next_override R hidden e f) own.1
            ∙ override_by_twice R o e e (s.overrides f.id)
            ∙ sym own.1,
      )

  one_pass_last :
      (k : ℕ) (s : Settling)
      → SettledBelow k s
      → ((f : Field) → Memᴰ f fields → rank f.id < k)
      → (one_pass R values hidden fields s).changed ≡ false
  unfolding one_pass
  one_pass_last k s h low =
      visit_all_unchanged R hidden (effective values s.visible) fields
        (record s { changed = false }) refl (λ f m. h f m (low f m))

  passes_converge :
      (n k : ℕ) (s : Settling)
      → Distinct field_id fields
      → Ranked rank fields
      → SettledBelow k s
      → ((f : Field) → Memᴰ f fields → rank f.id < k + n)
      → (passes R values hidden (suc n) fields s).changed ≡ false
  unfolding passes
  passes_converge zero k s d r h low =
      let u = one_pass_last k s h (λ f m. omega (arith, low f m)) in ground (arith, u)
  passes_converge (suc n) k s d r h low =
      let next = one_pass R values hidden fields s in
      let rest =
        passes_converge n (suc k) next d r (SettledBelow-one_pass k s d r h)
          (λ f m. omega (arith, low f m)) in
      elim (Bool-cases next.changed) [ inl e ↦ ground (arith, e, rest) | inr e ↦ ground (arith, e) ]

  -- Where no condition depends on itself, the passes end with one that changes nothing.
  pub settle_converges :
      Distinct field_id fields
      → Ranked rank fields
      → (settle R values hidden fields).changed ≡ false
  unfolding settle
  settle_converges d r =
      passes_converge (length fields) 0 (start hidden fields) d r (λ f m h. absurd (omega arith))
        (λ f m. omega (arith, r.bounded f m))
