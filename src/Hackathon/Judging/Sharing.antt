-- ===== src/Hackathon/Judging/Sharing.antt =====
-- Whom `_fill` gives to each team, and how many.
use srkrcc_main_application.Common.{
  ℕ, ◌-◌, ◌≤◌, ◌≡◌, refl, ◌∙◌, Bool, true, false, not, ◌&&◌, List, [], ◌∷◌, ◌++◌, ◌==◌, min, map,
  count, exists, every, length, arith, if◌then◌else◌, ==_refl,
}
use srkrcc_main_application.Common.Rows.Laws.{Distinct}
use srkrcc_main_application.Hackathon.Judging.{
  Assignment, is_given, active, assign_to, candidates, fill_all, fill_balanced, fill, short,
}
use srkrcc_main_application.Hackathon.Judging.Chosen.{
  free, number, chosen, count-++, length-select, length-chosen, count-Distinct, count-candidates,
  count-chosen, count-strangers, count-chosen_strangers,
}
use srkrcc_main_application.Hackathon.Judging.Turns.{
  balanced_at, all_at, active-assigned, count-assigned,
}

-- A new assignment: one that stands, of a team of the round to somebody of the panel who never had it.
abbrev pub is_new : List ℕ → List ℕ → List Assignment → Assignment → Bool
is_new judges entries rows a =
    exists (λ k. k == a.judge) judges
    && exists (λ d. d == a.entry) entries
    && not (is_given rows a.entry a.judge)
    && not a.recused

-- The assignments that the loop adds.
abbrev added : Bool → ℕ → List ℕ → List ℕ → List Assignment → List Assignment
added is_all per_team judges entries rows =
    if is_all
    then fill_all rows judges entries
    else fill_balanced (min per_team (length judges)) rows judges entries []

active_lem :
    (is_all : Bool) (per_team : ℕ) (judges entries : List ℕ) (rows : List Assignment) (e : ℕ)
    → Distinct number entries
    → exists (λ d. d == e) entries ≡ true
    → active e (added is_all per_team judges entries rows) ≡ (
        if is_all
        then free rows e judges
        else min (min per_team (length judges) - active e rows) (free rows e judges))
active_lem true per_team judges entries rows e u h =
    all_at e (λ a. a.entry == e && not a.recused) (λ d j n. ground (arith, n)) rows judges entries u
      h
    ∙ active-assigned e (candidates rows e judges)
    ∙ length-select (λ j. not (is_given rows e j)) judges
active_lem false per_team judges entries rows e u h =
    let n = min per_team (length judges) in
    let (seen, at) =
      balanced_at e (λ a. a.entry == e && not a.recused) (λ d j n. ground (arith, n)) n rows []
        judges entries u h in
    omega (
      arith,
      at,
      active-assigned e (chosen (n - active e rows) rows seen judges e),
      length-chosen (n - active e rows) rows seen judges e,
    )

abbrev is_pair : ℕ → ℕ → Assignment → Bool
is_pair e j a = a.entry == e && a.judge == j

pairs-assigned :
    (e j : ℕ) (js : List ℕ) → count (is_pair e j) (map (assign_to e) js) ≡ count (λ k. k == j) js
pairs-assigned e j [] = refl
pairs-assigned e j (k ∷ ks) = ground (arith, pairs-assigned e j ks, ==_refl e)

pairs_lem :
    (is_all : Bool) (per_team : ℕ) (judges entries : List ℕ) (rows : List Assignment) (e j : ℕ)
    → Distinct number entries
    → Distinct number judges
    → exists (λ d. d == e) entries ≡ true
    → count (is_pair e j) (added is_all per_team judges entries rows) ≤ 1
pairs_lem true per_team judges entries rows e j u v h = omega (
  arith,
  all_at e (is_pair e j) (λ d k n. ground (arith, n)) rows judges entries u h,
  pairs-assigned e j (candidates rows e judges),
  count-candidates (λ k. k == j) rows judges e,
  count-Distinct j judges v,
)
pairs_lem false per_team judges entries rows e j u v h =
    let n = min per_team (length judges) in
    let (seen, at) =
      balanced_at e (is_pair e j) (λ d k n. ground (arith, n)) n rows [] judges entries u h in
    omega (
      arith,
      at,
      pairs-assigned e j (chosen (n - active e rows) rows seen judges e),
      count-chosen (λ k. k == j) (n - active e rows) rows seen judges e,
      count-Distinct j judges v,
    )

module _ (judges entries : List ℕ) (rows : List Assignment) where
  abbrev is_bad : Assignment → Bool
  is_bad a = not (is_new judges entries rows a)

  bad-candidates :
      (e : ℕ)
      → exists (λ d. d == e) entries ≡ true
      → count (λ j. is_bad (assign_to e j)) (candidates rows e judges) ≡ 0
  bad-candidates e h =
      count-strangers (λ j. is_bad (assign_to e j)) rows judges e (λ j f m. ground (arith, f, m, h))

  bad-all :
      (es : List ℕ)
      → ((e : ℕ) → exists (λ d. d == e) es ≡ true → exists (λ d. d == e) entries ≡ true)
      → count is_bad (fill_all rows judges es) ≡ 0
  unfolding fill_all
  bad-all [] sub = refl
  bad-all (e ∷ es) sub =
      count-++ is_bad (map (assign_to e) (candidates rows e judges)) (fill_all rows judges es)
      ∙ omega (
        arith,
        count-assigned is_bad e (candidates rows e judges),
        bad-candidates e (sub e (ground (arith, ==_refl e))),
        bad-all es (λ d m. sub d (ground (arith, m))),
      )

  bad-balanced :
      (n : ℕ) (es : List ℕ) (created : List Assignment)
      → ((e : ℕ) → exists (λ d. d == e) es ≡ true → exists (λ d. d == e) entries ≡ true)
      → count is_bad (fill_balanced n rows judges es created) ≡ count is_bad created
  unfolding fill_balanced
  bad-balanced n [] created sub = refl
  bad-balanced n (e ∷ es) created sub =
      let js = chosen (n - active e rows) rows (rows ++ created) judges e in
      bad-balanced n es (created ++ map (assign_to e) js) (λ d m. sub d (ground (arith, m)))
      ∙ count-++ is_bad created (map (assign_to e) js)
      ∙ omega (
        arith,
        count-assigned is_bad e js,
        count-chosen_strangers (λ j. is_bad (assign_to e j)) (n - active e rows) rows
            (rows ++ created) judges e (bad-candidates e (sub e (ground (arith, ==_refl e)))),
      )

  every_new :
      (more : List Assignment)
      → count is_bad more ≡ 0
      → every (is_new judges entries rows) more ≡ true
  every_new [] h = refl
  every_new (a ∷ more) h = ground (arith, every_new more)

  added-new :
      (is_all : Bool) (per_team : ℕ)
      → every (is_new judges entries rows) (added is_all per_team judges entries rows) ≡ true
  added-new true per_team = every_new (fill_all rows judges entries) (bad-all entries (λ e m. m))
  added-new false per_team =
      let n = min per_team (length judges) in
      every_new (fill_balanced n rows judges entries []) (bad-balanced n entries [] (λ e m. m))

-- Sharing out keeps the assignments there are and adds new ones: each stands, and gives a team of the
-- round to somebody of the panel who never had it, nobody twice. Each team is given all of these
-- judges, or in a balanced round as many as it needs to have the judges per team (at most the whole
-- panel) who did not step aside, as far as there are such judges. Here no team is in the round twice,
-- and nobody on the panel twice.
pub fill_lem :
    (is_all : Bool) (per_team : ℕ) (judges entries : List ℕ) (rows : List Assignment) (e j : ℕ)
    → Distinct number entries
    → Distinct number judges
    → exists (λ d. d == e) entries ≡ true
    → (more : List Assignment) × (fill is_all per_team judges entries rows ≡ rows ++ more)
      × (every (is_new judges entries rows) more ≡ true)
      × (count (λ a. a.entry == e && a.judge == j) more ≤ 1)
      × (active e more ≡ (
          if is_all
          then free rows e judges
          else min (min per_team (length judges) - active e rows) (free rows e judges)))
unfolding fill
fill_lem is_all per_team judges entries rows e j u v h = (
  added is_all per_team judges entries rows,
  refl,
  added-new judges entries rows is_all per_team,
  pairs_lem is_all per_team judges entries rows e j u v h,
  active_lem is_all per_team judges entries rows e u h,
)

free_new : (e : ℕ) (judges : List ℕ) → free [] e judges ≡ length judges
free_new e [] = refl
free_new e (j ∷ js) = omega (arith, free_new e js)

none_short :
    (m : ℕ) (rows : List Assignment) (es : List ℕ)
    → ((e : ℕ) → exists (λ d. d == e) es ≡ true → m ≤ active e rows)
    → short m es rows ≡ []
unfolding short
none_short m rows [] h = refl
none_short m rows (e ∷ es) h =
    let here = h e (ground (arith, ==_refl e)) in
    let rest = none_short m rows es (λ d k. h d (ground (arith, k))) in ground (arith, here, rest)

active_first :
    (is_all : Bool) (per_team : ℕ) (judges entries : List ℕ) (e : ℕ)
    → Distinct number entries
    → exists (λ d. d == e) entries ≡ true
    → active e (fill is_all per_team judges entries []) ≡ (
        if is_all
        then free [] e judges
        else min (min per_team (length judges) - 0) (free [] e judges))
unfolding fill
active_first is_all per_team judges entries e u h =
    active_lem is_all per_team judges entries [] e u h

-- Where a round's teams are shared out for the first time, the panel has the reviews that each team
-- needs at least, and so have the judges per team, no team is short of judges.
pub fill_covers :
    (is_all : Bool) (per_team min_reviews : ℕ) (judges entries : List ℕ)
    → Distinct number entries
    → min_reviews ≤ per_team
    → min_reviews ≤ length judges
    → short min_reviews entries (fill is_all per_team judges entries []) ≡ []
fill_covers true per_team min_reviews judges entries u a b =
    none_short min_reviews (fill true per_team judges entries []) entries (λ e k.
      omega (arith, active_first true per_team judges entries e u k, free_new e judges, a, b))
fill_covers false per_team min_reviews judges entries u a b =
    none_short min_reviews (fill false per_team judges entries []) entries (λ e k.
      omega (arith, active_first false per_team judges entries e u k, free_new e judges, a, b))
