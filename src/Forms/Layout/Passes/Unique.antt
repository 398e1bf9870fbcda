-- ===== src/Forms/Layout/Passes/Unique.antt =====
-- The layout that the conditions of a form determine.
use mathlib.Core.List.{Memᴰ}
use srkrcc_main_application.Common.{
  ℕ, zero, suc, ◌<◌, ◌≡◌, refl, sym, ◌∙◌, Bool, true, not, Option, none, some, List, arith, ◌==◌,
  exists, Bool-cases, inl, inr,
}
use srkrcc_main_application.Common.Rows.Laws.{Distinct}
use srkrcc_main_application.Forms.Conditions.{Reading}
use srkrcc_main_application.Forms.Conditions.Trees.{Answers}
use srkrcc_main_application.Forms.Conditions.Trees.Watching.{watches, Agree}
use srkrcc_main_application.Forms.Layout.{Condition, Field, effective}
use srkrcc_main_application.Forms.Layout.Passes.{settle}
use srkrcc_main_application.Forms.Layout.Passes.Visits.{field_id, active_condition}
use srkrcc_main_application.Forms.Layout.Passes.Convergence.{
  Ranked, mem_of_exists, effective-Agree, visible_by_local, override_by_local,
  active_condition-some, settle_converges,
}
use srkrcc_main_application.Forms.Layout.Passes.Outcome.{
  should_show, should_force, Meets, visible_by_should, override_by_should, Meets-settle,
}

module _ (R : Reading) (values : Answers) (hidden : ℕ → Bool) (fields : List Field) where
  -- What a question should do depends on the questions that its condition names.
  should_local :
      (v w : ℕ → Bool) (f : Field)
      → ((c : Condition) → f.condition ≡ some c → (q : ℕ) → watches c.tree q ≡ true → v q ≡ w q)
      → (should_show R values hidden fields v f ≡ should_show R values hidden fields w f)
        × (should_force R values hidden fields v f ≡ should_force R values hidden fields w f)
  should_local v w f h =
      let o = active_condition hidden f in
      let agree : (c : Condition)
          → o ≡ some c
          → Agree c.tree (effective values v) (effective values w) =
        λ c n. effective-Agree values c v w (h c (active_condition-some hidden f c n)) in
      (
        sym (visible_by_should R values hidden fields v f)
            ∙ visible_by_local R o (effective values v) (effective values w) (not (hidden f.id))
                agree
            ∙ visible_by_should R values hidden fields w f,
        sym (override_by_should R values hidden fields v f)
            ∙ override_by_local R o (effective values v) (effective values w) none agree
            ∙ override_by_should R values hidden fields w f,
      )

  -- It depends on whether that question itself is hidden.
  should_hidden :
      (hidden' : ℕ → Bool) (v : ℕ → Bool) (f : Field)
      → hidden f.id ≡ hidden' f.id
      → (should_show R values hidden fields v f ≡ should_show R values hidden' fields v f)
        × (should_force R values hidden fields v f ≡ should_force R values hidden' fields v f)
  should_hidden hidden' v f h = (ground (arith, h), ground (arith, h))

-- Two layouts, with questions hidden that may differ: `Near` holds of questions that are hidden in both
-- or in neither, and with a question of those that its condition names.
module _ (R : Reading) (values : Answers) (fields : List Field) (rank : ℕ → ℕ)
    (r : Ranked rank fields) (Near : ℕ → Type 0) (h h' : ℕ → Bool)
    (alike : (f : Field) → Memᴰ f fields → Near f.id → h f.id ≡ h' f.id)
    (closed : (f g : Field) (c : Condition)
      → Memᴰ f fields
      → Memᴰ g fields
      → f.condition ≡ some c
      → watches c.tree g.id ≡ true
      → Near f.id
      → Near g.id)
    (v w : ℕ → Bool) (o p : ℕ → Option Bool) (a : Meets R values h fields v o)
    (b : Meets R values h' fields w p) where
  visible_at : (q : ℕ) → ((g : Field) → Memᴰ g fields → g.id ≡ q → v g.id ≡ w g.id) → v q ≡ w q
  visible_at q k = elim (Bool-cases (exists (λ g. g.id == q) fields)) [
    | inl y ↦ let (g, (m, e)) = mem_of_exists q fields y in rw (sym e) (k g m e)
    | inr n ↦ a.hides_others q n ∙ sym (b.hides_others q n)
  ]

  visible_below : (k : ℕ) (f : Field) → Memᴰ f fields → Near f.id → rank f.id < k → v f.id ≡ w f.id
  visible_below zero f m near low = absurd (omega (arith, low))
  visible_below (suc k) f m near low =
      let same = should_local R values h fields v w f (λ c n q y. visible_at q (λ g j e.
        let y' : watches c.tree g.id ≡ true = rw (sym e) at y in
        visible_below k g j (closed f g c m j n y' near)
          (omega (arith, low, r.falls f g c m j n y')))) in
      a.shows f m
      ∙ same.0
      ∙ (should_hidden R values h fields h' w f (alike f m near)).0
      ∙ sym (b.shows f m)

  pub visible_near : (q : ℕ) → ((g : Field) → Memᴰ g fields → g.id ≡ q → Near g.id) → v q ≡ w q
  visible_near q near =
      visible_at q (λ g m e. visible_below (suc (rank g.id)) g m (near g m e) (omega arith))

  pub override_near : (q : ℕ) → ((g : Field) → Memᴰ g fields → g.id ≡ q → Near g.id) → o q ≡ p q
  override_near q near = elim (Bool-cases (exists (λ g. g.id == q) fields)) [
    | inl y ↦
        let (g, (m, e)) = mem_of_exists q fields y in
        let same = should_local R values h fields v w g (λ c n t k.
          visible_near t (λ g' m' e'. closed g g' c m m' n (rw (sym e') at k) (near g m e))) in
        rw (sym e) (
          a.forces g m
          ∙ same.1
          ∙ (should_hidden R values h fields h' w g (alike g m (near g m e))).1
          ∙ sym (b.forces g m))
    | inr n ↦ a.forces_no_other q n ∙ sym (b.forces_no_other q n)
  ]

module _ (R : Reading) (values : Answers) (hidden : ℕ → Bool) (fields : List Field) (rank : ℕ → ℕ)
    (d : Distinct field_id fields) (r : Ranked rank fields) where
  -- Where no condition depends on itself, the questions that show when the passes end, and the
  -- overrides, are what the conditions mean.
  pub settle-Meets :
      Meets R values hidden fields
        (settle R values hidden fields).visible
        (settle R values hidden fields).overrides
  settle-Meets =
      Meets-settle R values hidden fields d (settle_converges R values hidden rank fields d r)

  -- Where no condition depends on itself, whatever meets the conditions agrees with what the passes
  -- end with.
  pub settle_unique :
      (v : ℕ → Bool) (o : ℕ → Option Bool) (q : ℕ)
      → Meets R values hidden fields v o
      → ((settle R values hidden fields).visible q ≡ v q)
        × ((settle R values hidden fields).overrides q ≡ o q)
  settle_unique v o q a =
      let s = settle R values hidden fields in
      let all : ℕ → Type 0 = λ q. Unit in
      (
        visible_near R values fields rank r all hidden hidden (λ f i n. refl)
            (λ f g c i j k n t. tt) s.visible v s.overrides o settle-Meets a q (λ g i e. tt),
        override_near R values fields rank r all hidden hidden (λ f i n. refl)
            (λ f g c i j k n t. tt) s.visible v s.overrides o settle-Meets a q (λ g i e. tt),
      )
