-- ===== src/Hackathon/Judging/Turns.antt =====
-- What one round of the loops of `_fill` adds for an entry.
use srkrcc_main_application.Common.{
  ℕ, ◌+◌, ◌-◌, ◌≡◌, refl, ap, subst, ◌∙◌, Bool, true, false, List, [], ◌∷◌, ◌++◌, ◌==◌, map, count,
  exists, length, arith, Bool-cases, inl, inr, ==_refl, ==→eq,
}
use srkrcc_main_application.Common.Rows.Laws.{Distinct}
use srkrcc_main_application.Hackathon.Judging.{
  Assignment, active, assign_to, candidates, fill_all, fill_balanced,
}
use srkrcc_main_application.Hackathon.Judging.Chosen.{number, chosen, count-++}

-- A test that only assignments of the entry `e` pass.
module _ (e : ℕ) (P : Assignment → Bool)
    (here : (d j : ℕ) → (d == e) ≡ false → P (assign_to d j) ≡ false) where
  others : (d : ℕ) (js : List ℕ) → (d == e) ≡ false → count P (map (assign_to d) js) ≡ 0
  others d [] h = refl
  others d (j ∷ js) h = ground (arith, here d j h, others d js h)

  balanced_others :
      (n : ℕ) (rows created : List Assignment) (judges es : List ℕ)
      → exists (λ d. d == e) es ≡ false
      → count P (fill_balanced n rows judges es created) ≡ count P created
  unfolding fill_balanced
  balanced_others n rows created judges [] h = refl
  balanced_others n rows created judges (d ∷ es) h =
      let js = chosen (n - active d rows) rows (rows ++ created) judges d in
      balanced_others n rows (created ++ map (assign_to d) js) judges es (ground (arith, h))
      ∙ count-++ P created (map (assign_to d) js)
      ∙ omega (arith, others d js (ground (arith, h)))

  -- What the round of the loop for `e` adds; `seen` are the rows that it counts loads on.
  pub balanced_at :
      (n : ℕ) (rows created : List Assignment) (judges es : List ℕ)
      → Distinct number es
      → exists (λ d. d == e) es ≡ true
      → (seen : List Assignment) × (count P (fill_balanced n rows judges es created)
          ≡ count P created
            + count P (map (assign_to e) (chosen (n - active e rows) rows seen judges e)))
  unfolding fill_balanced
  balanced_at n rows created judges [] u h = absurd (ground arith)
  balanced_at n rows created judges (d ∷ es) u h =
      let js = chosen (n - active d rows) rows (rows ++ created) judges d in
      let created' = created ++ map (assign_to d) js in
      let joined = count-++ P created (map (assign_to d) js) in
      elim (Bool-cases (d == e)) [
        | inl k ↦
            let same = ==→eq d e k in
            (
              rows ++ created,
              balanced_others n rows created' judges es (rw (← same) u.0)
                  ∙ subst
                      (λ c.
                        count P created'
                        ≡ count P created
                          + count P (
                              map (assign_to c)
                                (chosen (n - active c rows) rows (rows ++ created) judges c)))
                      same joined,
            )
        | inr k ↦
            let (seen, rest) = balanced_at n rows created' judges es u.1 (ground (arith, h, k)) in
            (seen, rest ∙ omega (arith, joined, others d js k))
      ]

  all_others :
      (rows : List Assignment) (judges es : List ℕ)
      → exists (λ d. d == e) es ≡ false
      → count P (fill_all rows judges es) ≡ 0
  unfolding fill_all
  all_others rows judges [] h = refl
  all_others rows judges (d ∷ es) h =
      count-++ P (map (assign_to d) (candidates rows d judges)) (fill_all rows judges es)
      ∙ omega (
        arith,
        others d (candidates rows d judges) (ground (arith, h)),
        all_others rows judges es (ground (arith, h)),
      )

  pub all_at :
      (rows : List Assignment) (judges es : List ℕ)
      → Distinct number es
      → exists (λ d. d == e) es ≡ true
      → count P (fill_all rows judges es) ≡ count P (map (assign_to e) (candidates rows e judges))
  unfolding fill_all
  all_at rows judges [] u h = absurd (ground arith)
  all_at rows judges (d ∷ es) u h =
      let joined =
        count-++ P (map (assign_to d) (candidates rows d judges)) (fill_all rows judges es) in
      elim (Bool-cases (d == e)) [
        | inl k ↦
            let same = ==→eq d e k in
            joined
            ∙ omega (arith, all_others rows judges es (rw (← same) u.0))
            ∙ ap (λ c. count P (map (assign_to c) (candidates rows c judges))) same
        | inr k ↦
            joined
            ∙ omega (
              arith,
              others d (candidates rows d judges) k,
              all_at rows judges es u.1 (ground (arith, h, k)),
            )
      ]

pub active-assigned : (e : ℕ) (js : List ℕ) → active e (map (assign_to e) js) ≡ length js
active-assigned e [] = refl
active-assigned e (j ∷ js) = ground (arith, active-assigned e js, ==_refl e)

pub count-assigned :
    (P : Assignment → Bool) (e : ℕ) (js : List ℕ)
    → count P (map (assign_to e) js) ≡ count (λ j. P (assign_to e j)) js
count-assigned P e [] = refl
count-assigned P e (j ∷ js) = omega (arith, count-assigned P e js)
