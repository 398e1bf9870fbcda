-- ===== src/Hackathon/Leaderboard/Ranks.antt =====
-- The ranks of a leaderboard.
use srkrcc_main_application.Common.{
  ℕ, suc, ◌+◌, ◌≤◌, ◌<◌, ◌≡◌, refl, sym, ap, ◌∙◌, String, Bool, true, false, not, ◌&&◌, none, some,
  List, [], ◌∷◌, ◌==◌, ltb, map, count, select, arith, if◌then◌else◌, Bool-cases, inl, inr, ==→eq,
}
use srkrcc_main_application.Common.Rows.Laws.{All}
use srkrcc_main_application.Hackathon.Leaderboard.{
  Scored, is_listed, ranks, is_before, insert_scored, by_score, leaderboard, idea_leaderboard,
}

-- How many rows have a better score than `m`.
abbrev pub better : ℕ → List Scored → ℕ
better m ss = count (λ s. ltb m s.score) ss

-- Each row with the number of rows that are better, and one.
abbrev pub ranked : List Scored → List (ℕ × Scored)
ranked ss = map (λ s. (suc (better s.score ss), s)) ss

abbrev AtMost : ℕ → List Scored → Type 0
AtMost m = All (λ s. s.score ≤ m)

abbrev Falling : List Scored → Type 0
Falling [] = Unit
Falling (s ∷ ss) = AtMost s.score ss × Falling ss

AtMost-later : (m n : ℕ) (ss : List Scored) → m ≤ n → AtMost m ss → AtMost n ss
AtMost-later m n [] k h = tt
AtMost-later m n (s ∷ ss) k (low, h) = (omega (arith, low, k), AtMost-later m n ss k h)

none_better : (m : ℕ) (ss : List Scored) → AtMost m ss → better m ss ≡ 0
none_better m [] h = refl
none_better m (s ∷ ss) (low, h) = ground (arith, low, none_better m ss h)

map_all : {A B : Type 0} (f g : A → B) (xs : List A) → ((x : A) → f x ≡ g x) → map f xs ≡ map g xs
map_all f g [] h = refl
map_all f g (x ∷ xs) h = rw (h x) (ap (λ ys. g x ∷ ys) (map_all f g xs h))

ranks_shared :
    (position previous rank : ℕ) (s : Scored) (ss : List Scored)
    → (previous == s.score) ≡ true
    → ranks position (some previous) rank (s ∷ ss)
      ≡ (rank, s) ∷ ranks (suc position) (some previous) rank ss
unfolding ranks
ranks_shared position previous rank s ss e = ground (arith, e)

ranks_next :
    (position previous rank : ℕ) (s : Scored) (ss : List Scored)
    → (previous == s.score) ≡ false
    → ranks position (some previous) rank (s ∷ ss)
      ≡ (position, s) ∷ ranks (suc position) (some s.score) position ss
unfolding ranks
ranks_next position previous rank s ss e = ground (arith, e)

-- `above` counts the rows that came before.
abbrev ranked_after : (ℕ → ℕ) → List Scored → List (ℕ × Scored)
ranked_after above ss = map (λ s. (suc (above s.score + better s.score ss), s)) ss

-- One row more came before.
abbrev one_more : (ℕ → ℕ) → ℕ → ℕ → ℕ
one_more above score m = above m + (if ltb m score then 1 else 0)

ranked_step :
    (above : ℕ → ℕ) (n : ℕ) (s : Scored) (ss : List Scored)
    → n ≡ suc (above s.score)
    → AtMost s.score ss
    → (n, s) ∷ ranked_after (one_more above s.score) ss ≡ ranked_after above (s ∷ ss)
ranked_step above n s ss e top =
    let none' = none_better s.score ss top in
    let here : n ≡ suc (above s.score + better s.score (s ∷ ss)) = ground (arith, none', e) in
    rw here (
      ap (λ ys. (suc (above s.score + better s.score (s ∷ ss)), s) ∷ ys)
        (map_all (λ t. (suc (one_more above s.score t.score + better t.score ss), t))
          (λ t. (suc (above t.score + better t.score (s ∷ ss)), t)) ss
          (λ t. ap (λ k. (suc k, t)) (omega arith))))

ranks_lem :
    (above : ℕ → ℕ) (position previous rank : ℕ) (ss : List Scored)
    → Falling ss
    → AtMost previous ss
    → ((m : ℕ) → m < previous → suc (above m) ≡ position)
    → suc (above previous) ≡ rank
    → ranks position (some previous) rank ss ≡ ranked_after above ss
unfolding ranks
ranks_lem above position previous rank [] f a low same = refl
ranks_lem above position previous rank (s ∷ ss) (top, f) (a, later) low same =
    elim (Bool-cases (previous == s.score)) [
      | inl e ↦
          let equal = ==→eq previous s.score e in
          ranks_shared position previous rank s ss e
          ∙ ap (λ ys. (rank, s) ∷ ys)
              (ranks_lem (one_more above s.score) (suc position) previous rank ss f later
                (λ m k. ground (arith, low m, equal)) (ground (arith, same, equal)))
          ∙ ranked_step above rank s ss (rw (sym equal) (sym same)) top
      | inr e ↦
          let below : s.score < previous = ground (arith, e, a) in
          ranks_next position previous rank s ss e
          ∙ ap (λ ys. (position, s) ∷ ys)
              (ranks_lem (one_more above s.score) (suc position) s.score position ss f top
                (λ m k. ground (arith, low m, below)) (ground (arith, low s.score, below)))
          ∙ ranked_step above position s ss (sym (low s.score below)) top
    ]

ranks_first : (ss : List Scored) → Falling ss → ranks 1 none 0 ss ≡ ranked ss
unfolding ranks
ranks_first [] f = refl
ranks_first (s ∷ ss) (top, f) =
    ap (λ ys. (1, s) ∷ ys)
      (ranks_lem (one_more (λ m. 0) s.score) 2 s.score 1 ss f top (λ m k. ground arith)
        (ground arith))
    ∙ ranked_step (λ m. 0) 1 s ss refl top
    ∙ map_all (λ t. (suc (0 + better t.score (s ∷ ss)), t))
        (λ t. (suc (better t.score (s ∷ ss)), t)) (s ∷ ss) (λ t. ap (λ k. (suc k, t)) (omega arith))

module _ (text_lt : String → String → Bool) where
  AtMost-insert :
      (m : ℕ) (s : Scored) (ss : List Scored)
      → s.score ≤ m
      → AtMost m ss
      → AtMost m (insert_scored text_lt s ss)
  AtMost-insert m s [] k h = (k, tt)
  AtMost-insert m s (t ∷ ts) k (low, h) = elim (Bool-cases (is_before text_lt s t)) [
    | inl e ↦ rw e (k, (low, h))
    | inr e ↦ rw e (low, AtMost-insert m s ts k h)
  ]

  Falling-insert :
      (s : Scored) (ss : List Scored) → Falling ss → Falling (insert_scored text_lt s ss)
  Falling-insert s [] h = (tt, tt)
  Falling-insert s (t ∷ ts) (low, h) = elim (Bool-cases (is_before text_lt s t)) [
    | inl e ↦
        let le : t.score ≤ s.score = ground (arith, e) in
        rw e ((le, AtMost-later t.score s.score ts le low), (low, h))
    | inr e ↦ rw e (AtMost-insert t.score s ts (ground (arith, e)) low, Falling-insert s ts h)
  ]

  Falling-by_score : (ss : List Scored) → Falling (by_score text_lt ss)
  unfolding by_score
  Falling-by_score [] = tt
  Falling-by_score (s ∷ ss) = Falling-insert s (by_score text_lt ss) (Falling-by_score ss)

  better-insert :
      (m : ℕ) (s : Scored) (ss : List Scored)
      → better m (insert_scored text_lt s ss) ≡ better m (s ∷ ss)
  better-insert m s [] = refl
  better-insert m s (t ∷ ts) = ground (arith, better-insert m s ts)

  better-by_score : (m : ℕ) (ss : List Scored) → better m (by_score text_lt ss) ≡ better m ss
  unfolding by_score
  better-by_score m [] = refl
  better-by_score m (s ∷ ss) =
      better-insert m s (by_score text_lt ss) ∙ ground (arith, better-by_score m ss)

  -- The rows of both leaderboards, the best first, have as their rank one more than the number of listed
  -- rows with a better score: equal scores share a rank, and the next rank is skipped for each of them.
  pub leaderboard_ranks :
      (rows : List Scored)
      → (leaderboard text_lt rows
          ≡ map
              (λ s. (suc (better s.score (select is_listed rows)), s))
              (by_score text_lt (select is_listed rows)))
        × (idea_leaderboard text_lt rows
            ≡ map
                (λ s.
                  (suc (better s.score (select (λ t. is_listed t && not t.is_rejected) rows)), s))
                (by_score text_lt (select (λ t. is_listed t && not t.is_rejected) rows)))
  unfolding leaderboard idea_leaderboard
  leaderboard_ranks rows = (
    sorted_ranks (select is_listed rows),
    sorted_ranks (select (λ t. is_listed t && not t.is_rejected) rows),
  )
    where
      sorted_ranks :
          (ss : List Scored)
          → ranks 1 none 0 (by_score text_lt ss)
            ≡ map (λ s. (suc (better s.score ss), s)) (by_score text_lt ss)
      sorted_ranks ss =
          ranks_first (by_score text_lt ss) (Falling-by_score ss)
          ∙ map_all (λ s. (suc (better s.score (by_score text_lt ss)), s))
              (λ s. (suc (better s.score ss), s)) (by_score text_lt ss)
              (λ s. ap (λ n. (suc n, s)) (better-by_score s.score ss))
