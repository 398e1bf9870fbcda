-- ===== src/Hackathon/Rounds/Shortlist.antt =====
-- The best scores of a round.
use mathlib.Core.List.{Memᴰ}
use mathlib.Core.List.Memᴰ.{head, tail}
use srkrcc_main_application.Common.{
  ==_refl, ℕ, zero, suc, ◌-◌, ◌*◌, ◌≤◌, ◌≡◌, refl, ap, subst, ◌∙◌, Bool, true, false, not, ◌&&◌,
  none, some, List, [], ◌∷◌, ◌==◌, leb, ltb, map, count, arith, Bool-cases, Option-cases, inl, inr,
  exists, leb→le, ==→eq,
}
use srkrcc_main_application.Common.Rows.Laws.{All}
use srkrcc_main_application.Hackathon.Monad.{ok}
use srkrcc_main_application.Hackathon.Rounds.{
  Rule, top, kind_of, Entry, Round, metric, hundredths, is_round_score, insert_score, sort_scores,
  scores, score_at, is_at_least, select_top, evaluate_kind, evaluate_rule,
}

abbrev AllBelow : ℕ → List ℕ → Type 0
AllBelow b = All (λ y. y ≤ b)

-- In decreasing order.
abbrev Sorted : List ℕ → Type 0
Sorted [] = Unit
Sorted (x ∷ xs) = AllBelow x xs × Sorted xs

AllBelow-later : (a b : ℕ) (xs : List ℕ) → a ≤ b → AllBelow a xs → AllBelow b xs
AllBelow-later a b [] k h = tt
AllBelow-later a b (x ∷ xs) k (low, h) = (omega (arith, low, k), AllBelow-later a b xs k h)

AllBelow-insert : (b x : ℕ) (xs : List ℕ) → x ≤ b → AllBelow b xs → AllBelow b (insert_score x xs)
AllBelow-insert b x [] k h = (k, tt)
AllBelow-insert b x (y ∷ ys) k (low, h) = elim (Bool-cases (leb y x)) [
  | inl e ↦ rw e (k, (low, h))
  | inr e ↦ rw e (low, AllBelow-insert b x ys k h)
]

Sorted-insert : (x : ℕ) (xs : List ℕ) → Sorted xs → Sorted (insert_score x xs)
Sorted-insert x [] h = (tt, tt)
Sorted-insert x (y ∷ ys) (low, h) = elim (Bool-cases (leb y x)) [
  | inl e ↦ rw e ((leb→le y x e, AllBelow-later y x ys (leb→le y x e) low), (low, h))
  | inr e ↦ rw e (AllBelow-insert y x ys (ground (arith, e)) low, Sorted-insert x ys h)
]

Sorted-sort : (xs : List ℕ) → Sorted (sort_scores xs)
unfolding sort_scores
Sorted-sort [] = tt
Sorted-sort (x ∷ xs) = Sorted-insert x (sort_scores xs) (Sorted-sort xs)

count-insert : (p : ℕ → Bool) (x : ℕ) (xs : List ℕ) → count p (insert_score x xs) ≡ count p (x ∷ xs)
count-insert p x [] = refl
count-insert p x (y ∷ ys) = ground (arith, count-insert p x ys)

count-sort : (p : ℕ → Bool) (xs : List ℕ) → count p (sort_scores xs) ≡ count p xs
unfolding sort_scores
count-sort p [] = refl
count-sort p (x ∷ xs) = omega (arith, count-insert p x (sort_scores xs), count-sort p xs)

-- No score is above one that is no less than the best.
none_above : (m b : ℕ) (xs : List ℕ) → b ≤ m → AllBelow b xs → count (λ s. ltb m s) xs ≡ 0
none_above m b [] k h = refl
none_above m b (x ∷ xs) k (low, h) = ground (arith, none_above m b xs k h)

cutoff_below :
    (b n y : ℕ) (ys : List ℕ)
    → AllBelow b (y ∷ ys)
    → is_at_least (some b) (score_at n (y ∷ ys)) ≡ true
unfolding score_at
cutoff_below b n y [] (low, h) = ground (arith, low)
cutoff_below b zero y (z ∷ zs) (low, h) = ground (arith, low)
cutoff_below b (suc n) y (z ∷ zs) (low, h) = cutoff_below b n z zs h

-- A score is as good as the cut-off just where fewer than so many are better.
cutoff_lem :
    (m n : ℕ) (xs : List ℕ)
    → Sorted xs
    → exists (λ s. s == m) xs ≡ true
    → is_at_least (some m) (score_at n xs) ≡ leb (count (λ s. ltb m s) xs) n
unfolding score_at
cutoff_lem m n [] h e = absurd (ground arith)
cutoff_lem m n (x ∷ []) h e = ground arith
cutoff_lem m zero (x ∷ y ∷ ys) (low, h) e =
    let none' = none_above m x (y ∷ ys) in ground (arith, none', low)
cutoff_lem m (suc n) (x ∷ y ∷ ys) (low, h) e = elim (Bool-cases (exists (λ s. s == m) (y ∷ ys))) [
  | inl k ↦
      let rest = cutoff_lem m n (y ∷ ys) h k in
      let none' = none_above m x (y ∷ ys) in ground (arith, rest, none', low)
  | inr k ↦
      let same : x ≡ m = ==→eq x m (ground (arith, e, k)) in
      let below = cutoff_below x n y ys low in
      let none' = none_above x x (y ∷ ys) (omega arith) low in
      subst
        (λ m.
          is_at_least (some m) (score_at n (y ∷ ys))
          ≡ leb (count (λ s. ltb m s) (x ∷ y ∷ ys)) (suc n))
        same (ground (arith, below, none'))
]

exists-insert :
    (p : ℕ → Bool) (x : ℕ) (xs : List ℕ) → exists p (insert_score x xs) ≡ exists p (x ∷ xs)
exists-insert p x [] = refl
exists-insert p x (y ∷ ys) = ground (arith, exists-insert p x ys)

exists-sort : (p : ℕ → Bool) (xs : List ℕ) → exists p (sort_scores xs) ≡ exists p xs
unfolding sort_scores
exists-sort p [] = refl
exists-sort p (x ∷ xs) = exists-insert p x (sort_scores xs) ∙ ground (arith, exists-sort p xs)

-- Whether an entry's score is above `m`.
abbrev pub is_above : Rule → ℕ → Entry → Bool
is_above rule m e = elim (metric rule e) [ none ↦ false | some s ↦ ltb m s ]

-- Whether an entry has a score that fewer than `n` entries have a better one than.
abbrev pub is_shortlisted : Rule → ℕ → List Entry → Entry → Bool
is_shortlisted rule n entries e = elim (metric rule e) [
  | none ↦ false
  | some m ↦ ltb (count (is_above rule m) entries) n
]

count-scores :
    (rule : Rule) (m : ℕ) (es : List Entry)
    → count (λ s. ltb m s) (scores (map (metric rule) es)) ≡ count (is_above rule m) es
count-scores rule m [] = refl
count-scores rule m (e ∷ es) = elim (Option-cases (metric rule e)) [
  | inl n ↦ ground (arith, n, count-scores rule m es)
  | inr (s, n) ↦ ground (arith, n, count-scores rule m es)
]

score_listed :
    (rule : Rule) (m : ℕ) (e : Entry) (es : List Entry)
    → Memᴰ e es
    → metric rule e ≡ some m
    → exists (λ s. s == m) (scores (map (metric rule) es)) ≡ true
score_listed rule m e [] i h = elim i [ ]
score_listed rule m e (x ∷ es) (head same) h = rw (rw same at h) (ground (arith, ==_refl m))
score_listed rule m e (x ∷ es) (tail i) h = elim (Option-cases (metric rule x)) [
  | inl n ↦ rw n (score_listed rule m e es i h)
  | inr (s, n) ↦ rw n (ground (arith, score_listed rule m e es i h))
]

pub map_same :
    {A B : Type 0} (f g : A → B) (xs : List A)
    → ((x : A) → Memᴰ x xs → f x ≡ g x)
    → map f xs ≡ map g xs
map_same f g [] h = refl
map_same f g (x ∷ xs) h =
    rw (h x (head refl)) (ap (λ ys. g x ∷ ys) (map_same f g xs (λ y m. h y (tail m))))

select_top_lem :
    (rule : Rule) (n : ℕ) (es : List Entry)
    → 1 ≤ n
    → select_top rule n es ≡ map (λ e. (e, is_shortlisted rule n es e)) es
unfolding select_top
select_top_lem rule n es pos =
    let found = scores (map (metric rule) es) in
    let cutoff = score_at (n - 1) (sort_scores found) in
    map_same (λ e. (e, is_at_least (metric rule e) cutoff)) (λ e. (e, is_shortlisted rule n es e))
      es
      (λ e i. elim (Option-cases (metric rule e)) [
        | inl k ↦ ground (arith, k)
        | inr (m, k) ↦
            let here =
              cutoff_lem m (n - 1) (sort_scores found) (Sorted-sort found)
                (exists-sort (λ s. s == m) found ∙ score_listed rule m e es i k) in
            let better = count-sort (λ s. ltb m s) found ∙ count-scores rule m es in
            let same : is_at_least (metric rule e) cutoff ≡ is_shortlisted rule n es e =
              ground (arith, k, here, better, pos) in
            ap (λ b. (e, b)) same
      ])

-- A "top N" rule selects an entry just where it has a score and fewer than N entries of the round have a
-- better one: ties at the cut-off are all kept. It needs the round's judging to be closed where it goes
-- by the round's own scores.
pub evaluate_rule_top :
    (round : Round) (rule : Rule) (n : ℕ)
    → kind_of rule ≡ top
    → (is_round_score rule && not (round.is_judged && round.is_closed)) ≡ false
    → 1 ≤ n
    → evaluate_rule round rule (hundredths (100 * n))
      ≡ ok (map (λ e. (e, is_shortlisted rule n round.entries e)) round.entries)
unfolding evaluate_rule evaluate_kind
evaluate_rule_top round rule n k closed pos =
    ground (arith, k, closed, select_top_lem rule n round.entries pos)
