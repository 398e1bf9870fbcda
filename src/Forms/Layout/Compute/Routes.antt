-- ===== src/Forms/Layout/Compute/Routes.antt =====
-- The loop over routes of `compute_layout`.
use srkrcc_main_application.Common.{
  ℕ, zero, suc, ◌+◌, ◌≤◌, ◌<◌, ◌≡◌, refl, sym, subst, Bool, true, false, none, List, arith, length,
  Bool-cases, inl, inr,
}
use srkrcc_main_application.Common.Rows.Laws.{Distinct}
use srkrcc_main_application.Forms.Conditions.{Reading}
use srkrcc_main_application.Forms.Conditions.Trees.{Answers}
use srkrcc_main_application.Forms.Layout.{Field, effective}
use srkrcc_main_application.Forms.Layout.Pages.{split_pages, skipped_pages, hidden_from}
use srkrcc_main_application.Forms.Layout.Pages.Walk.{walk_before}
use srkrcc_main_application.Forms.Layout.Passes.{Settling}
use srkrcc_main_application.Forms.Layout.Passes.Visits.{field_id}
use srkrcc_main_application.Forms.Layout.Passes.Convergence.{Ranked, settle_converges}
use srkrcc_main_application.Forms.Layout.Passes.Outcome.{Meets, Meets-settle}
use srkrcc_main_application.Forms.Layout.Compute.{
  settle_with, reroute, same_pages, Routed, routes, compute_layout,
}
use srkrcc_main_application.Forms.Layout.Compute.Turns.{LooksBack, reroute_agrees}

the_zero : (i : ℕ) → i ≤ 0 → i ≡ 0
the_zero i h = omega (arith, h)

same_pages-true : (n : ℕ) (s t : ℕ → Bool) → ((i : ℕ) → i < n → s i ≡ t i) → same_pages n s t ≡ true
unfolding same_pages
same_pages-true zero s t h = refl
same_pages-true (suc n) s t h =
    let rest = same_pages-true n s t (λ i k. h i (omega (arith, k))) in
    let last = h n (omega arith) in ground (arith, rest, last)

module _ (R : Reading) (fields : List Field) (values : Answers) where
  reroute_first : (s : Settling) → reroute R fields values s 0 ≡ false
  unfolding reroute
  reroute_first s =
      walk_before R fields (split_pages fields) (length (split_pages fields))
        (effective values s.visible) 0 (λ i. false) 0 (omega arith)

  -- The visible questions are those that the skipped pages leave, and the route that they take skips
  -- just those pages.
  pub record Consistent (result : Routed) : Type 0 where
    pub settled_with : result.settled ≡ settle_with R fields values result.skips
    pub skips_routed :
        same_pages
          (length (split_pages fields))
          (reroute R fields values result.settled)
          result.skips
        ≡ true

  routes_stop :
      (n : ℕ) (s : Settling) (skips : ℕ → Bool)
      → same_pages
          (length (split_pages fields))
          (reroute R fields values (settle_with R fields values skips))
          skips
        ≡ true
      → routes R fields values (suc n) s skips
        ≡ record { settled = settle_with R fields values skips; skips = skips }
  unfolding routes
  routes_stop n s skips e = ground (arith, e)

  routes_go :
      (n : ℕ) (s : Settling) (skips : ℕ → Bool)
      → same_pages
          (length (split_pages fields))
          (reroute R fields values (settle_with R fields values skips))
          skips
        ≡ false
      → routes R fields values (suc n) s skips
        ≡ routes R fields values n
            (settle_with R fields values skips)
            (reroute R fields values (settle_with R fields values skips))
  unfolding routes
  routes_go n s skips e = ground (arith, e)

  Consistent-routes :
      (n : ℕ) (s : Settling) (skips : ℕ → Bool)
      → same_pages
          (length (split_pages fields))
          (reroute R fields values (settle_with R fields values skips))
          skips
        ≡ true
      → Consistent (routes R fields values (suc n) s skips)
  Consistent-routes n s skips e =
      subst Consistent (sym (routes_stop n s skips e))
        (record { settled_with = refl; skips_routed = e })

module _ (R : Reading) (fields : List Field) (values : Answers) (rank page : ℕ → ℕ)
    (d : Distinct field_id fields) (r : Ranked rank fields) (l : LooksBack page fields) where
  -- `k` pages are settled after the first.
  routes-Consistent :
      (n k : ℕ) (s : Settling) (skips : ℕ → Bool)
      → ((i : ℕ) → i ≤ k → reroute R fields values (settle_with R fields values skips) i ≡ skips i)
      → length (split_pages fields) ≤ k + suc n
      → Consistent R fields values (routes R fields values (suc n) s skips)
  routes-Consistent zero k s skips h enough = Consistent-routes R fields values zero s skips (
      same_pages-true (length (split_pages fields))
        (reroute R fields values (settle_with R fields values skips)) skips
        (λ i low. h i (omega (arith, low, enough))))
  routes-Consistent (suc n) k s skips h enough =
      let next = settle_with R fields values skips in
      let routed = reroute R fields values next in
      elim (Bool-cases (same_pages (length (split_pages fields)) routed skips)) [
        | inl e ↦ Consistent-routes R fields values (suc n) s skips e
        | inr e ↦
            subst (Consistent R fields values) (sym (routes_go R fields values (suc n) s skips e)) (
              routes-Consistent n (suc k) next routed
                (λ i low. reroute_agrees R fields values rank page d r l k routed skips h i low)
                (omega (arith, enough)))
      ]

  -- Where no condition depends on itself or on a later page, the layout is consistent: its visible
  -- questions and its overrides are what the conditions mean where the skipped pages are hidden, and the
  -- walk over the pages, by the answers to the visible questions, skips just those pages.
  pub compute_layout_consistent :
      Meets R values
        (hidden_from (split_pages fields) 0 (compute_layout R fields values).skipped)
        fields
        (compute_layout R fields values).visible_ids
        (compute_layout R fields values).required_overrides
      × (same_pages
            (length (split_pages fields))
            (skipped_pages R fields
              (split_pages fields)
              (compute_layout R fields values).visible_ids
              values)
            (compute_layout R fields values).skipped
          ≡ true)
  unfolding compute_layout reroute settle_with
  compute_layout_consistent =
      let pages = split_pages fields in
      let empty : Settling = record {
        visible = λ q. false;
        overrides = λ q. none;
        changed = false;
      } in
      let result = routes R fields values (suc (length pages)) empty (λ i. false) in
      let first_page : (i : ℕ)
          → i ≤ 0
          → reroute R fields values (settle_with R fields values (λ i. false)) i ≡ false =
        λ i low.
          rw (the_zero i low)
            (reroute_first R fields values (settle_with R fields values (λ i. false))) in
      let c = routes-Consistent (length pages) 0 empty (λ i. false) first_page (omega arith) in
      let hidden = hidden_from pages 0 result.skips in
      (
        subst (λ t. Meets R values hidden fields t.visible t.overrides) (sym c.settled_with)
            (Meets-settle R values hidden fields d
              (settle_converges R values hidden rank fields d r)),
        c.skips_routed,
      )
