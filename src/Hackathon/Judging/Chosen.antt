-- ===== src/Hackathon/Judging/Chosen.antt =====
-- Whom `_fill` chooses for a team: candidates, the least busy first.
use srkrcc_main_application.Common.{
  ℕ, zero, suc, ◌+◌, ◌≤◌, ◌≡◌, refl, ap, ◌∙◌, Bool, true, false, not, List, [], ◌∷◌, ◌++◌, ◌==◌,
  min, count, exists, select, length, arith, Bool-cases, inl, inr, ==_refl, ==→eq,
}
use srkrcc_main_application.Common.Rows.Laws.{Distinct}
use srkrcc_main_application.Hackathon.Judging.{
  Assignment, is_given, is_busier, insert_judge, by_load, take, candidates,
}

-- The judges of the panel who were never given an entry.
abbrev pub free : List Assignment → ℕ → List ℕ → ℕ
free rows entry judges = count (λ j. not (is_given rows entry j)) judges

abbrev pub number : ℕ → ℕ
number n = n

-- The first judges of the queue for an entry; `seen` is what the loads are counted on.
abbrev pub chosen : ℕ → List Assignment → List Assignment → List ℕ → ℕ → List ℕ
chosen n rows seen judges entry = take n (by_load seen (candidates rows entry judges))

pub count-++ :
    (p : Assignment → Bool) (xs ys : List Assignment) → count p (xs ++ ys) ≡ count p xs + count p ys
count-++ p [] ys = omega arith
count-++ p (x ∷ xs) ys = omega (arith, count-++ p xs ys)

length-insert :
    (rows : List Assignment) (j : ℕ) (ks : List ℕ)
    → length (insert_judge rows j ks) ≡ suc (length ks)
length-insert rows j [] = refl
length-insert rows j (k ∷ ks) = elim (Bool-cases (is_busier rows j k)) [
  | inl e ↦ rw e (omega (arith, length-insert rows j ks))
  | inr e ↦ rw e refl
]

length-by_load : (rows : List Assignment) (js : List ℕ) → length (by_load rows js) ≡ length js
unfolding by_load
length-by_load rows [] = refl
length-by_load rows (j ∷ js) =
    length-insert rows j (by_load rows js) ∙ omega (arith, length-by_load rows js)

length-take : (n : ℕ) (xs : List ℕ) → length (take n xs) ≡ min n (length xs)
length-take n [] = ground arith
length-take zero (x ∷ xs) = ground arith
length-take (suc n) (x ∷ xs) = ground (arith, length-take n xs)

pub length-select : (p : ℕ → Bool) (xs : List ℕ) → length (select p xs) ≡ count p xs
length-select p [] = refl
length-select p (x ∷ xs) = ground (arith, length-select p xs)

pub length-chosen :
    (n : ℕ) (rows seen : List Assignment) (judges : List ℕ) (e : ℕ)
    → length (chosen n rows seen judges e) ≡ min n (free rows e judges)
length-chosen n rows seen judges e =
    length-take n (by_load seen (candidates rows e judges))
    ∙ ap (min n) (
        length-by_load seen (candidates rows e judges)
        ∙ length-select (λ j. not (is_given rows e j)) judges)

-- Counting a judge.
count-insert :
    (p : ℕ → Bool) (rows : List Assignment) (j : ℕ) (ks : List ℕ)
    → count p (insert_judge rows j ks) ≡ count p (j ∷ ks)
count-insert p rows j [] = refl
count-insert p rows j (k ∷ ks) = elim (Bool-cases (is_busier rows j k)) [
  | inl e ↦ rw e (omega (arith, count-insert p rows j ks))
  | inr e ↦ rw e refl
]

count-by_load :
    (p : ℕ → Bool) (rows : List Assignment) (js : List ℕ) → count p (by_load rows js) ≡ count p js
unfolding by_load
count-by_load p rows [] = refl
count-by_load p rows (j ∷ js) =
    omega (arith, count-insert p rows j (by_load rows js), count-by_load p rows js)

count-take : (p : ℕ → Bool) (n : ℕ) (xs : List ℕ) → count p (take n xs) ≤ count p xs
count-take p n [] = omega arith
count-take p zero (x ∷ xs) = omega arith
count-take p (suc n) (x ∷ xs) = omega (arith, count-take p n xs)

count-select : (p q : ℕ → Bool) (xs : List ℕ) → count p (select q xs) ≤ count p xs
count-select p q [] = omega arith
count-select p q (x ∷ xs) = ground (arith, count-select p q xs)

count-absent : (j : ℕ) (js : List ℕ) → exists (λ k. k == j) js ≡ false → count (λ k. k == j) js ≡ 0
count-absent j [] h = refl
count-absent j (k ∷ ks) h = ground (arith, count-absent j ks)

pub count-Distinct : (j : ℕ) (js : List ℕ) → Distinct number js → count (λ k. k == j) js ≤ 1
count-Distinct j [] u = omega arith
count-Distinct j (k ∷ ks) u = elim (Bool-cases (k == j)) [
  | inl e ↦
      let away : exists (λ x. x == j) ks ≡ false = rw (← ==→eq k j e) u.0 in
      ground (arith, e, count-absent j ks away)
  | inr e ↦ ground (arith, e, count-Distinct j ks u.1)
]

pub count-candidates :
    (p : ℕ → Bool) (rows : List Assignment) (judges : List ℕ) (e : ℕ)
    → count p (candidates rows e judges) ≤ count p judges
count-candidates p rows judges e = count-select p (λ j. not (is_given rows e j)) judges

pub count-chosen :
    (p : ℕ → Bool) (n : ℕ) (rows seen : List Assignment) (judges : List ℕ) (e : ℕ)
    → count p (chosen n rows seen judges e) ≤ count p judges
count-chosen p n rows seen judges e = omega (
  arith,
  count-take p n (by_load seen (candidates rows e judges)),
  count-by_load p seen (candidates rows e judges),
  count-candidates p rows judges e,
)

-- What holds of no judge of the panel who was never given the entry holds of nobody chosen.
none-candidates :
    (p q : ℕ → Bool) (judges : List ℕ)
    → ((j : ℕ) → q j ≡ true → exists (λ k. k == j) judges ≡ true → p j ≡ false)
    → (js : List ℕ)
    → ((j : ℕ) → exists (λ k. k == j) js ≡ true → exists (λ k. k == j) judges ≡ true)
    → count p (select q js) ≡ 0
none-candidates p q judges h [] sub = refl
none-candidates p q judges h (j ∷ js) sub =
    let rest = none-candidates p q judges h js (λ k m. sub k (ground (arith, m))) in
    elim (Bool-cases (q j)) [
      | inl e ↦ ground (arith, e, rest, h j e (sub j (ground (arith, ==_refl j))))
      | inr e ↦ ground (arith, e, rest)
    ]

pub count-strangers :
    (p : ℕ → Bool) (rows : List Assignment) (judges : List ℕ) (e : ℕ)
    → ((j : ℕ) → not (is_given rows e j) ≡ true → exists (λ k. k == j) judges ≡ true → p j ≡ false)
    → count p (candidates rows e judges) ≡ 0
count-strangers p rows judges e h =
    none-candidates p (λ j. not (is_given rows e j)) judges h judges (λ j m. m)

pub count-chosen_strangers :
    (p : ℕ → Bool) (n : ℕ) (rows seen : List Assignment) (judges : List ℕ) (e : ℕ)
    → count p (candidates rows e judges) ≡ 0
    → count p (chosen n rows seen judges e) ≡ 0
count-chosen_strangers p n rows seen judges e h = omega (
  arith,
  h,
  count-take p n (by_load seen (candidates rows e judges)),
  count-by_load p seen (candidates rows e judges),
)
