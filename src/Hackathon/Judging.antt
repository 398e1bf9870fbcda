-- ===== src/Hackathon/Judging.antt =====
-- apps/hackathons/round_judging.py: sharing the teams of a judged round out among its panel.
pub mod Chosen
pub mod Sharing
pub mod Turns
mod Tests
use srkrcc_main_application.Common.{
  ℕ, zero, suc, ◌+◌, ◌-◌, Bool, true, false, not, ◌&&◌, ◌||◌, Option, none, some, List, [], ◌∷◌,
  ◌++◌, ◌==◌, ltb, min, map, count, exists, select, length, if◌then◌else◌,
}

-- A `RoundAssignment`.
pub record Assignment : Type 0 where
  pub entry : ℕ
  pub judge : ℕ
  pub recused : Bool

-- `given.get(entry)` contains the judge
abbrev pub is_given : List Assignment → ℕ → ℕ → Bool
is_given rows entry judge = exists (λ a. a.entry == entry && a.judge == judge) rows

-- `active_by_entry`
abbrev pub active : ℕ → List Assignment → ℕ
active entry rows = count (λ a. a.entry == entry && not a.recused) rows

abbrev pub load : ℕ → List Assignment → ℕ
load judge rows = count (λ a. a.judge == judge && not a.recused) rows

-- `key=lambda j: (load[j.id], j.id)`
abbrev pub is_busier : List Assignment → ℕ → ℕ → Bool
is_busier rows j k = ltb (load k rows) (load j rows) || (load j rows == load k rows && ltb k j)

abbrev pub insert_judge : List Assignment → ℕ → List ℕ → List ℕ
insert_judge rows j [] = j ∷ []
insert_judge rows j (k ∷ ks) = if is_busier rows j k then k ∷ insert_judge rows j ks else j ∷ k ∷ ks

unfoldable pub by_load : List Assignment → List ℕ → List ℕ
by_load rows [] = []
by_load rows (j ∷ js) = insert_judge rows j (by_load rows js)

-- `xs[:n]`
abbrev pub take : ℕ → List ℕ → List ℕ
take n [] = []
take zero (x ∷ xs) = []
take (suc n) (x ∷ xs) = x ∷ take n xs

abbrev pub assign_to : ℕ → ℕ → Assignment
assign_to entry judge = record { entry = entry; judge = judge; recused = false }

abbrev pub candidates : List Assignment → ℕ → List ℕ → List ℕ
candidates rows entry judges = select (λ j. not (is_given rows entry j)) judges

-- The loop over the entries where `assignment_mode` is ALL, and where it is BALANCED.
unfoldable pub fill_all : List Assignment → List ℕ → List ℕ → List Assignment
fill_all rows judges [] = []
fill_all rows judges (e ∷ es) =
    map (assign_to e) (candidates rows e judges) ++ fill_all rows judges es

unfoldable pub fill_balanced :
    ℕ → List Assignment → List ℕ → List ℕ → List Assignment → List Assignment
fill_balanced per_team rows judges [] created = created
fill_balanced per_team rows judges (e ∷ es) created =
    let need = per_team - active e rows in
    let chosen = take need (by_load (rows ++ created) (candidates rows e judges)) in
    fill_balanced per_team rows judges es (created ++ map (assign_to e) chosen)

-- `_fill`: the assignments of the round afterwards.
unfoldable pub fill : Bool → ℕ → List ℕ → List ℕ → List Assignment → List Assignment
fill is_all judges_per_team judges entries rows =
    rows
    ++ (if is_all
        then fill_all rows judges entries
        else fill_balanced (min judges_per_team (length judges)) rows judges entries [])

-- `coverage`: the entries with fewer judges than the round needs.
unfoldable pub short : ℕ → List ℕ → List Assignment → List ℕ
short min_reviews entries rows = select (λ e. ltb (active e rows) min_reviews) entries
