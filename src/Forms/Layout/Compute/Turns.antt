-- ===== src/Forms/Layout/Compute/Turns.antt =====
-- One turn of the loop over routes of `compute_layout`.
use mathlib.Core.List.{Memᴰ}
use mathlib.Core.List.Memᴰ.{head, tail}
use srkrcc_main_application.Common.{
  ℕ, suc, ◌+◌, ◌≤◌, ◌<◌, ◌≡◌, refl, sym, Bool, true, false, some, List, [], ◌∷◌, ◌==◌, arith,
  length, exists, first, Bool-cases, Option-cases, inl, inr, ==→eq, ==_refl,
}
use srkrcc_main_application.Common.Rows.Laws.{Distinct}
use srkrcc_main_application.Forms.Conditions.{Reading}
use srkrcc_main_application.Forms.Conditions.Trees.{Answers, evaluate_node}
use srkrcc_main_application.Forms.Conditions.Trees.Watching.{watches, evaluate_node_local}
use srkrcc_main_application.Forms.Layout.{
  Action, skip_to_section, end_form, Condition, Field, normalized, effective,
}
use srkrcc_main_application.Forms.Layout.Pages.{
  split_pages, nth_page, route_by, condition_of, route_at, hidden_from,
}
use srkrcc_main_application.Forms.Layout.Pages.Walk.{walk_agrees, hidden_from_local}
use srkrcc_main_application.Forms.Layout.Passes.{settle}
use srkrcc_main_application.Forms.Layout.Passes.Visits.{field_id}
use srkrcc_main_application.Forms.Layout.Passes.Convergence.{
  Ranked, effective-Agree, settle_converges,
}
use srkrcc_main_application.Forms.Layout.Passes.Outcome.{Meets-settle}
use srkrcc_main_application.Forms.Layout.Passes.Unique.{visible_near}
use srkrcc_main_application.Forms.Layout.Compute.{settle_with, reroute}

abbrev pub is_routing : Action → Bool
is_routing skip_to_section = true
is_routing end_form = true
is_routing _ = false

-- Conditions that look back: `page` gives the page of a question; a condition names no question on a
-- later page, and the condition of a page break that routes only ones on earlier pages.
pub record LooksBack (page : ℕ → ℕ) (fields : List Field) : Type 0 where
  pub located :
      (i q : ℕ) → exists (λ x. x == q) (nth_page (split_pages fields) i) ≡ true → page q ≡ i
  pub shows_back :
      (f g : Field) (c : Condition)
      → Memᴰ f fields
      → Memᴰ g fields
      → f.condition ≡ some c
      → watches c.tree g.id ≡ true
      → page g.id ≤ page f.id
  pub routes_back :
      (f g : Field) (c : Condition)
      → Memᴰ f fields
      → Memᴰ g fields
      → f.condition ≡ some c
      → is_routing c.action ≡ true
      → watches c.tree g.id ≡ true
      → page g.id < page f.id

mem_of_first : (p : Field → Bool) (fs : List Field) (f : Field) → first p fs ≡ some f → Memᴰ f fs
mem_of_first p [] f h = absurd (ground arith)
mem_of_first p (g ∷ fs) f h = elim (Bool-cases (p g)) [
  | inl e ↦ head (ground (arith, e))
  | inr e ↦ tail (mem_of_first p fs f (rw e at h))
]

id_of_first : (q : ℕ) (fs : List Field) (f : Field) → first (λ g. g.id == q) fs ≡ some f → f.id ≡ q
id_of_first q [] f h = absurd (ground arith)
id_of_first q (g ∷ fs) f h = ground (arith, id_of_first q fs f, ==→eq g.id q)

module _ (R : Reading) (fields : List Field) (pages : List (List ℕ)) where
  -- The field whose condition routes to a page.
  condition_found :
      (p : List ℕ) (c : Condition)
      → condition_of R fields pages p ≡ some c
      → (f : Field) × (Memᴰ f fields × (f.condition ≡ some c) × (exists (λ x. x == f.id) p ≡ true))
  unfolding normalized
  condition_found [] c h = absurd (ground arith)
  condition_found (q ∷ qs) c h = elim (Option-cases (first (λ g. g.id == q) fields)) [
    | inl e ↦ absurd (ground (arith, e))
    | inr (f, e) ↦ (
      f,
      (
        mem_of_first (λ g. g.id == q) fields f e,
        ground (arith, e),
        ground (arith, id_of_first q fields f e, ==_refl q),
      ),
    )
  ]

  route_by_local :
      (c : Condition) (j : ℕ) (e e' : Answers)
      → (is_routing c.action ≡ true → evaluate_node R c.tree e ≡ evaluate_node R c.tree e')
      → route_by R fields pages (some c) j e ≡ route_by R fields pages (some c) j e'
  route_by_local c j e e' h = elim (Bool-cases (is_routing c.action)) [
    | inl y ↦ ground (arith, h y)
    | inr n ↦ ground (arith, n)
  ]

module _ (R : Reading) (fields : List Field) (values : Answers) (rank page : ℕ → ℕ)
    (d : Distinct field_id fields) (r : Ranked rank fields) (l : LooksBack page fields) where
  -- Page breaks of the first pages route alike where the questions on the pages before show alike.
  route_at_agrees :
      (m j : ℕ) (v w : ℕ → Bool)
      → ((q : ℕ) → ((g : Field) → Memᴰ g fields → g.id ≡ q → page g.id ≤ m) → v q ≡ w q)
      → j ≤ suc m
      → route_at R fields (split_pages fields) j (effective values v)
        ≡ route_at R fields (split_pages fields) j (effective values w)
  unfolding route_at
  route_at_agrees m j v w h low =
      let pages = split_pages fields in
      elim (Option-cases (condition_of R fields pages (nth_page pages j))) [
        | inl n ↦ rw n refl
        | inr (c, n) ↦
            let (f, (i, e, on)) = condition_found R fields pages (nth_page pages j) c n in
            rw n (
              route_by_local R fields pages c j (effective values v) (effective values w) (λ y.
                evaluate_node_local R c.tree (effective values v) (effective values w) (
                  effective-Agree values c v w (λ q k. h q (λ g x z. omega (
                    arith,
                    low,
                    l.located j f.id on,
                    l.routes_back f g c i x e y (rw (sym z) at k),
                  ))))))
      ]

  -- The questions on the first pages show alike where the same of those pages are skipped.
  visible_agrees :
      (m : ℕ) (s t : ℕ → Bool)
      → ((i : ℕ) → i ≤ m → s i ≡ t i)
      → (q : ℕ) → ((g : Field) → Memᴰ g fields → g.id ≡ q → page g.id ≤ m)
      → (settle_with R fields values s).visible q ≡ (settle_with R fields values t).visible q
  unfolding settle_with
  visible_agrees m s t h q low =
      let pages = split_pages fields in
      let a = hidden_from pages 0 s in
      let b = hidden_from pages 0 t in
      let x = settle R values a fields in
      let y = settle R values b fields in
      let near : ℕ → Type 0 = λ q. page q ≤ m in
      visible_near R values fields rank r near a b
        (λ f i n.
          hidden_from_local pages 0 s t f.id
            (λ j on. h (0 + j) (omega (arith, n, l.located j f.id on))))
        (λ f g c i j n w k. omega (arith, k, l.shows_back f g c i j n w)) x.visible y.visible
        x.overrides y.overrides
        (Meets-settle R values a fields d (settle_converges R values a rank fields d r))
        (Meets-settle R values b fields d (settle_converges R values b rank fields d r)) q low

  -- Each turn settles one page more.
  pub reroute_agrees :
      (m : ℕ) (s t : ℕ → Bool)
      → ((i : ℕ) → i ≤ m → s i ≡ t i)
      → (i : ℕ) → i ≤ suc m
      → reroute R fields values (settle_with R fields values s) i
        ≡ reroute R fields values (settle_with R fields values t) i
  unfolding reroute
  reroute_agrees m s t h i low =
      let v = (settle_with R fields values s).visible in
      let w = (settle_with R fields values t).visible in
      walk_agrees R fields (split_pages fields) (suc m) (length (split_pages fields))
        (effective values v) (effective values w) 0 (λ i. false) i
        (λ j k. route_at_agrees m j v w (visible_agrees m s t h) k) low
