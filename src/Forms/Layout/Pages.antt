-- ===== src/Forms/Layout/Pages.antt =====
-- `split_pages` and `_skipped_pages` of apps/forms/validation/conditional.py.
pub mod Walk
use srkrcc_main_application.Common.{
  ℕ, zero, suc, Bool, true, false, ◌&&◌, ◌||◌, Option, none, some, List, [], ◌∷◌, ◌==◌, ltb, leb,
  length, exists, is_at, if◌then◌else◌,
}
use srkrcc_main_application.Forms.Conditions.{Reading}
use srkrcc_main_application.Forms.Conditions.Trees.{Rule, Answers, evaluate_node}
use srkrcc_main_application.Forms.Layout.{
  Action, skip_to_section, end_form, Condition, Field, normalized, effective,
}

-- The rest of the page at hand, and the pages after it.
unfoldable pub pages_from : List Field → List ℕ × List (List ℕ)
pages_from [] = ([], [])
pages_from (f ∷ fs) =
    let (page, rest) = pages_from fs in
    if f.is_page_break then ([], (f.id ∷ page) ∷ rest) else (f.id ∷ page, rest)

-- `split_pages`
unfoldable pub split_pages : List Field → List (List ℕ)
unfolding pages_from
split_pages fields = let (page, rest) = pages_from fields in page ∷ rest

-- `pages[i]`
abbrev pub nth_page : List (List ℕ) → ℕ → List ℕ
nth_page [] i = []
nth_page (p ∷ ps) zero = p
nth_page (p ∷ ps) (suc i) = nth_page ps i

abbrev pub is_headed : List ℕ → ℕ → Bool
is_headed [] q = false
is_headed (x ∷ xs) q = x == q

abbrev pub page_headed : List (List ℕ) → ℕ → ℕ → Option ℕ
page_headed [] i q = none
page_headed (p ∷ ps) i q = if is_headed p q then some i else page_headed ps (suc i) q

-- `break_page.get(q)`: the page, not the first, that the page break `q` heads
unfoldable pub break_page : List (List ℕ) → Option ℕ → Option ℕ
break_page pages none = none
break_page [] (some q) = none
break_page (p ∷ ps) (some q) = page_headed ps 1 q

-- What leaving a page leads to.
pub data Route : Type 0 where
  onward : Route
  jump : ℕ → Route
  stop : Route

-- `set.update(range(first, last))`
abbrev pub add_range : ℕ → ℕ → (ℕ → Bool) → ℕ → Bool
add_range from upto skipped i = skipped i || (leb from i && ltb i upto)

abbrev pub jump_to : Option ℕ → ℕ → Route
jump_to none following = onward
jump_to (some target) following = if ltb following target then jump target else onward

abbrev pub is_true : Option Bool → Bool
is_true none = false
is_true (some b) = b

module _ (R : Reading) (fields : List Field) (pages : List (List ℕ)) where
  abbrev pub route_by : Option Condition → ℕ → Answers → Route
  route_by none following answers = onward
  route_by (some c) following answers =
      if is_true (evaluate_node R c.tree answers)
      then elim (c.action) [
        | end_form ↦ stop
        | skip_to_section ↦ jump_to (break_page pages c.target) following
        | _ ↦ onward
      ]
      else onward

  abbrev pub condition_of : List ℕ → Option Condition
  condition_of [] = none
  condition_of (q ∷ qs) = normalized fields q

  -- What the page break that starts the page `following` says.
  unfoldable pub route_at : ℕ → Answers → Route
  unfolding break_page normalized
  route_at following answers = route_by (condition_of (nth_page pages following)) following answers

  -- The `while` loop, with the number of its turns bounded.
  unfoldable pub walk : ℕ → Answers → ℕ → (ℕ → Bool) → ℕ → Bool
  unfolding route_at
  walk zero answers current skipped = skipped
  walk (suc n) answers current skipped = elim (ltb (suc current) (length pages)) [
    | false ↦ skipped
    | true ↦ elim (route_at (suc current) answers) [
      | onward ↦ walk n answers (suc current) skipped
      | jump target ↦ walk n answers target (add_range (suc current) target skipped)
      | stop ↦ add_range (suc current) (length pages) skipped
    ]
  ]

  -- `_skipped_pages`
  unfoldable pub skipped_pages : (ℕ → Bool) → Answers → ℕ → Bool
  unfolding walk effective
  skipped_pages visible values = walk (length pages) (effective values visible) 0 (λ i. false)

-- `{fid for index in skipped_pages for fid in pages[index]}`, counting pages from `i`
unfoldable pub hidden_from : List (List ℕ) → ℕ → (ℕ → Bool) → ℕ → Bool
hidden_from [] i skipped q = false
hidden_from (p ∷ ps) i skipped q =
    (skipped i && exists (λ x. x == q) p) || hidden_from ps (suc i) skipped q
