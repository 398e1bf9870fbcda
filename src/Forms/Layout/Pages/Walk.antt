-- ===== src/Forms/Layout/Pages/Walk.antt =====
-- The walk over the pages of a form.
use srkrcc_main_application.Common.{
  ℕ, zero, suc, ◌+◌, ◌≤◌, ◌<◌, ◌≡◌, refl, sym, subst, ◌∙◌, Bool, true, Option, none, some, List, [],
  ◌∷◌, ◌==◌, arith, leb, length, exists, Bool-cases, inl, inr, ◌⊎◌,
}
use srkrcc_main_application.Forms.Conditions.{Reading}
use srkrcc_main_application.Forms.Conditions.Trees.{Answers}
use srkrcc_main_application.Forms.Layout.{Condition, Field}
use srkrcc_main_application.Forms.Layout.Pages.{
  nth_page, Route, onward, jump, stop, add_range, route_by, condition_of, route_at, walk,
  hidden_from,
}

Route-cases : (r : Route) → (r ≡ onward) ⊎ (((t : ℕ) × (r ≡ jump t)) ⊎ (r ≡ stop))
Route-cases onward = inl refl
Route-cases (jump t) = inr (inl (t, refl))
Route-cases stop = inr (inr refl)

module _ (R : Reading) (fields : List Field) (pages : List (List ℕ)) where
  -- A page break skips only to a page after the one it starts.
  route_by_later :
      (o : Option Condition) (k t : ℕ) (e : Answers)
      → route_by R fields pages o k e ≡ jump t
      → k < t
  route_by_later none k t e h = absurd (ground arith)
  route_by_later (some c) k t e h = ground arith

  route_at_later : (k t : ℕ) (e : Answers) → route_at R fields pages k e ≡ jump t → k < t
  unfolding route_at
  route_at_later k t e h = route_by_later (condition_of R fields pages (nth_page pages k)) k t e h

  -- The walk does not come back to a page that it is past.
  pub walk_before :
      (n : ℕ) (e : Answers) (k : ℕ) (s : ℕ → Bool) (i : ℕ)
      → i ≤ k
      → walk R fields pages n e k s i ≡ s i
  unfolding walk
  walk_before zero e k s i h = refl
  walk_before (suc n) e k s i h = elim (Route-cases (route_at R fields pages (suc k) e)) [
    | inl r ↦ ground (arith, r, walk_before n e (suc k) s i)
    | inr (inl (t, r)) ↦
        let later = route_at_later (suc k) t e r in
        ground (arith, r, later, walk_before n e t (add_range (suc k) t s) i)
    | inr (inr r) ↦ ground (arith, r)
  ]

  -- Walks that agree on the page breaks of the first pages skip the same of them.
  pub walk_agrees :
      (m n : ℕ) (e e' : Answers) (k : ℕ) (s : ℕ → Bool) (i : ℕ)
      → ((j : ℕ) → j ≤ m → route_at R fields pages j e ≡ route_at R fields pages j e')
      → i ≤ m
      → walk R fields pages n e k s i ≡ walk R fields pages n e' k s i
  unfolding walk
  walk_agrees m zero e e' k s i h low = refl
  walk_agrees m (suc n) e e' k s i h low = elim (Bool-cases (leb (suc k) m)) [
    | inr past ↦
        walk_before (suc n) e k s i (ground (arith, past))
        ∙ sym (walk_before (suc n) e' k s i (ground (arith, past)))
    | inl before ↦
        let same = h (suc k) (ground (arith, before)) in
        elim (Route-cases (route_at R fields pages (suc k) e)) [
          | inl r ↦ ground (arith, r, same, walk_agrees m n e e' (suc k) s i h)
          | inr (inl (t, r)) ↦
              ground (arith, r, same, walk_agrees m n e e' t (add_range (suc k) t s) i h)
          | inr (inr r) ↦ ground (arith, r, same)
        ]
  ]

  -- More turns than pages left change nothing: the `while` loop ends by itself.
  pub walk_enough :
      (n m : ℕ) (e : Answers) (k : ℕ) (s : ℕ → Bool)
      → length pages ≤ k + suc n
      → length pages ≤ k + suc m
      → walk R fields pages n e k s ≡ walk R fields pages m e k s
  unfolding walk
  walk_enough zero zero e k s h j = refl
  walk_enough zero (suc m) e k s h j = ground arith
  walk_enough (suc n) zero e k s h j = ground arith
  walk_enough (suc n) (suc m) e k s h j = elim (Route-cases (route_at R fields pages (suc k) e)) [
    | inl r ↦ ground (arith, r, walk_enough n m e (suc k) s)
    | inr (inl (t, r)) ↦
        let later = route_at_later (suc k) t e r in
        ground (arith, r, later, walk_enough n m e t (add_range (suc k) t s))
    | inr (inr r) ↦ ground (arith, r)
  ]

-- Which questions are hidden depends on whether the pages that hold them are skipped.
pub hidden_from_local :
    (pages : List (List ℕ)) (i : ℕ) (s t : ℕ → Bool) (q : ℕ)
    → ((j : ℕ) → exists (λ x. x == q) (nth_page pages j) ≡ true → s (i + j) ≡ t (i + j))
    → hidden_from pages i s q ≡ hidden_from pages i t q
unfolding hidden_from
hidden_from_local [] i s t q h = refl
hidden_from_local (p ∷ ps) i s t q h =
    let rest = hidden_from_local ps (suc i) s t q (λ j k.
      let e : i + suc j ≡ suc i + j = omega arith in subst (λ n. s n ≡ t n) e (h (suc j) k)) in
    let e : i + 0 ≡ i = omega arith in
    let here : exists (λ x. x == q) p ≡ true → s i ≡ t i = λ k. subst (λ n. s n ≡ t n) e (h 0 k) in
    ground (arith, rest, here)
