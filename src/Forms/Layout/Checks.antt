-- ===== src/Forms/Layout/Checks.antt =====
-- Tests of the fields of a form for the conditions under which its layout settles.
use mathlib.Core.List.{Memᴰ}
use mathlib.Core.List.Memᴰ.{head, tail}
use srkrcc_main_application.Common.{
  ℕ, zero, suc, ◌+◌, ◌≡◌, Bool, true, ◌&&◌, none, some, List, [], ◌∷◌, ◌==◌, arith, ltb, leb,
  length, exists, every, ltb→lt, leb→le, ==→eq, ◌∙◌, Bool-cases, inl, inr, if◌then◌else◌,
}
use srkrcc_main_application.Forms.Conditions.Trees.Watching.{watches}
use srkrcc_main_application.Forms.Layout.{Condition, Field}
use srkrcc_main_application.Forms.Layout.Pages.{split_pages, nth_page}
use srkrcc_main_application.Forms.Layout.Passes.Convergence.{Ranked}
use srkrcc_main_application.Forms.Layout.Compute.Turns.{LooksBack, is_routing}

module _ {ℓ} {A : Type ℓ} where
  every_mem : (p : A → Bool) (xs : List A) (x : A) → every p xs ≡ true → Memᴰ x xs → p x ≡ true
  every_mem p [] x h m = elim m [ ]
  every_mem p (y ∷ xs) x h (head e) = rw e (ground (arith, h))
  every_mem p (y ∷ xs) x h (tail m) = every_mem p xs x (ground (arith, h)) m

-- Whether `test` holds of every field with a condition, and every field that the condition names.
abbrev pub named_satisfy : (Condition → Field → Field → Bool) → List Field → Bool
named_satisfy test fields =
    every
      (λ f. elim (f.condition) [
        | none ↦ true
        | some c ↦ every (λ g. if watches c.tree g.id then test c f g else true) fields
      ])
      fields

named_satisfied :
    (test : Condition → Field → Field → Bool) (fields : List Field)
    → named_satisfy test fields ≡ true
    → (f g : Field) (c : Condition) → Memᴰ f fields
    → Memᴰ g fields
    → f.condition ≡ some c
    → watches c.tree g.id ≡ true
    → test c f g ≡ true
named_satisfied test fields h f g c m n e w =
    let own =
      every_mem
        (λ f. elim (f.condition) [
          | none ↦ true
          | some c ↦ every (λ g. if watches c.tree g.id then test c f g else true) fields
        ])
        fields f h m in
    let each =
      every_mem (λ g. if watches c.tree g.id then test c f g else true) fields g (rw e at own) n in
    ground (arith, each, w)

unfoldable pub is_ranked : (ℕ → ℕ) → List Field → Bool
is_ranked rank fields =
    named_satisfy (λ c f g. ltb (rank g.id) (rank f.id)) fields
    && every (λ f. ltb (rank f.id) (length fields)) fields

pub Ranked-check :
    (rank : ℕ → ℕ) (fields : List Field) → is_ranked rank fields ≡ true → Ranked rank fields
unfolding is_ranked
Ranked-check rank fields h = record {
  falls = λ f g c m n e w. ltb→lt (rank g.id) (rank f.id) (
      named_satisfied (λ c f g. ltb (rank g.id) (rank f.id)) fields (ground (arith, h)) f g c m n e
        w);
  bounded = λ f m.
      ltb→lt (rank f.id) (length fields)
        (every_mem (λ f. ltb (rank f.id) (length fields)) fields f (ground (arith, h)) m);
}

abbrev located_from : (ℕ → ℕ) → ℕ → List (List ℕ) → Bool
located_from page i [] = true
located_from page i (p ∷ ps) = every (λ q. page q == i) p && located_from page (suc i) ps

every_at :
    (page : ℕ → ℕ) (i q : ℕ) (p : List ℕ)
    → every (λ x. page x == i) p ≡ true
    → exists (λ x. x == q) p ≡ true
    → page q ≡ i
every_at page i q [] h k = absurd (ground arith)
every_at page i q (x ∷ xs) h k = elim (Bool-cases (x == q)) [
  | inl e ↦
      let here : (page x == i) ≡ true = ground (arith, h) in
      ==→eq (page q) i (rw (==→eq x q e) at here)
  | inr e ↦ every_at page i q xs (ground (arith, h)) (rw e at k)
]

located_at :
    (page : ℕ → ℕ) (i j q : ℕ) (ps : List (List ℕ))
    → located_from page i ps ≡ true
    → exists (λ x. x == q) (nth_page ps j) ≡ true
    → page q ≡ i + j
located_at page i j q [] h k = absurd (ground arith)
located_at page i zero q (p ∷ ps) h k =
    let e = every_at page i q p (ground (arith, h)) k in omega (arith, e)
located_at page i (suc j) q (p ∷ ps) h k =
    let e = located_at page (suc i) j q ps (ground (arith, h)) k in omega (arith, e)

unfoldable pub is_looking_back : (ℕ → ℕ) → List Field → Bool
is_looking_back page fields =
    located_from page 0 (split_pages fields)
    && (named_satisfy (λ c f g. leb (page g.id) (page f.id)) fields
        && named_satisfy
            (λ c f g. if is_routing c.action then ltb (page g.id) (page f.id) else true) fields)

pub LooksBack-check :
    (page : ℕ → ℕ) (fields : List Field)
    → is_looking_back page fields ≡ true
    → LooksBack page fields
unfolding is_looking_back
LooksBack-check page fields h = record {
  located = λ i q k. located_at page 0 i q (split_pages fields) (ground (arith, h)) k ∙ omega arith;
  shows_back = λ f g c m n e w. leb→le (page g.id) (page f.id) (
      named_satisfied (λ c f g. leb (page g.id) (page f.id)) fields (ground (arith, h)) f g c m n e
        w);
  routes_back = λ f g c m n e y w.
      let k =
        named_satisfied (λ c f g. if is_routing c.action then ltb (page g.id) (page f.id) else true)
          fields (ground (arith, h)) f g c m n e w in
      ltb→lt (page g.id) (page f.id) (ground (arith, k, y));
}
