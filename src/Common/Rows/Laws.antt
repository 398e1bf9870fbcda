-- ===== src/Common/Rows/Laws.antt =====
-- Laws of the table operations.
use srkrcc_main_application.Common.{
  ℕ, ◌+◌, ◌≤◌, ◌≡◌, refl, Bool, true, false, ◌||◌, none, some, List, [], ◌∷◌, arith, ◌==◌, ◌∙◌, sym,
  subst, inl, inr, count, exists, first, delete, update, append, if◌then◌else◌, Bool-cases, ==→eq,
}

-- Every row satisfies `P`.
abbrev pub All {ℓ κ} : {A : Type ℓ} → (A → Type κ) → List A → Type κ
All P [] = Unit
All P (x ∷ xs) = P x × All P xs

-- No two rows have the same key.
abbrev pub Distinct {ℓ} : {A : Type ℓ} → (A → ℕ) → List A → Type 0
Distinct key [] = Unit
Distinct key (x ∷ xs) = (exists (λ y. key y == key x) xs ≡ false) × Distinct key xs

module _ {ℓ} {A : Type ℓ} where
  pub count-append :
      (p : A → Bool) (xs : List A) (a : A)
      → count p (append xs a) ≡ count p xs + (if p a then 1 else 0)
  count-append p [] a = ground arith
  count-append p (x ∷ xs) a = omega (arith, count-append p xs a)

  pub exists-append :
      (p : A → Bool) (xs : List A) (a : A) → exists p (append xs a) ≡ (exists p xs || p a)
  exists-append p [] a = ground arith
  exists-append p (x ∷ xs) a = ground (arith, exists-append p xs a)

  pub first-append :
      (p : A → Bool) (xs : List A) (a : A)
      → exists p xs ≡ false
      → first p (append xs a) ≡ (if p a then some a else none)
  first-append p [] a h = refl
  first-append p (x ∷ xs) a h = ground (arith, first-append p xs a)

  pub count-delete : (p : A → Bool) (xs : List A) → count p (delete p xs) ≡ 0
  count-delete p [] = refl
  count-delete p (x ∷ xs) = elim (Bool-cases (p x)) [
    | inl e ↦ rw e (count-delete p xs)
    | inr e ↦ rw e (rw e (omega (arith, count-delete p xs)))
  ]

  pub exists-delete : (p : A → Bool) (xs : List A) → exists p (delete p xs) ≡ false
  exists-delete p [] = refl
  exists-delete p (x ∷ xs) = elim (Bool-cases (p x)) [
    | inl e ↦ rw e (exists-delete p xs)
    | inr e ↦ rw e (rw e (exists-delete p xs))
  ]

  -- A row that is found satisfies the test.
  pub first_holds : (p : A → Bool) (xs : List A) (a : A) → first p xs ≡ some a → p a ≡ true
  first_holds p [] a h = cc
  first_holds p (x ∷ xs) a h = ground (arith, first_holds p xs a)

  pub exists_of_first :
      (p : A → Bool) (xs : List A) (a : A) → first p xs ≡ some a → exists p xs ≡ true
  exists_of_first p [] a h = cc
  exists_of_first p (x ∷ xs) a h = ground (arith, exists_of_first p xs a)

  pub first_of_exists :
      (p : A → Bool) (xs : List A) → exists p xs ≡ true → (a : A) × (first p xs ≡ some a)
  first_of_exists p [] h = absurd (cc)
  first_of_exists p (x ∷ xs) h = elim (Bool-cases (p x)) [
    | inl e ↦ (x, rw e)
    | inr e ↦ let r = first_of_exists p xs (rw e at h) in (r.0, rw e r.1)
  ]

  pub All_first {κ} :
      (P : A → Type κ) (p : A → Bool) (xs : List A) (a : A) → All P xs → first p xs ≡ some a → P a
  All_first P p [] a h e = absurd (cc)
  All_first P p (x ∷ xs) a h e = elim (Bool-cases (p x)) [
    | inl t ↦ let here : x ≡ a = ground arith in subst P here h.0
    | inr f ↦ All_first P p xs a h.1 (rw f at e)
  ]

  pub count_pos : (p : A → Bool) (xs : List A) → exists p xs ≡ true → 1 ≤ count p xs
  count_pos p [] h = absurd (cc)
  count_pos p (x ∷ xs) h = ground (arith, count_pos p xs)

  pub count_eq_zero : (p : A → Bool) (xs : List A) → exists p xs ≡ false → count p xs ≡ 0
  count_eq_zero p [] h = refl
  count_eq_zero p (x ∷ xs) h = ground (arith, count_eq_zero p xs)

  -- A change of the rows that a test does not see.
  module _ (p q : A → Bool) (f : A → A) (same : (x : A) → p (f x) ≡ p x) where
    pub exists-update : (xs : List A) → exists p (update q f xs) ≡ exists p xs
    exists-update [] = refl
    exists-update (x ∷ xs) = ground (arith, same x, exists-update xs)

    pub count-update : (xs : List A) → count p (update q f xs) ≡ count p xs
    count-update [] = refl
    count-update (x ∷ xs) = ground (arith, same x, count-update xs)

  -- Rows by their primary key.
  module _ (key : A → ℕ) where
    pub first-save :
        (r : A) (j : ℕ) (xs : List A)
        → first (λ x. key x == j) (update (λ x. key x == key r) (λ _. r) xs) ≡ (
            if key r == j
            then (if exists (λ x. key x == j) xs then some r else none)
            else first (λ x. key x == j) xs)
    first-save r j [] = ground arith
    first-save r j (x ∷ xs) = ground (arith, first-save r j xs)

    pub exists-save :
        (r : A) (j : ℕ) (xs : List A)
        → exists (λ x. key x == j) (update (λ x. key x == key r) (λ _. r) xs)
          ≡ exists (λ x. key x == j) xs
    exists-save r j [] = refl
    exists-save r j (x ∷ xs) = ground (arith, exists-save r j xs)

    pub Distinct-save :
        (r : A) (xs : List A)
        → Distinct key xs
        → Distinct key (update (λ x. key x == key r) (λ _. r) xs)
    Distinct-save r [] h = tt
    Distinct-save r (x ∷ xs) h = elim (Bool-cases (key x == key r)) [
      | inl e ↦ rw e (rw (← ==→eq _ _ e) (exists-save r (key x) xs ∙ h.0), Distinct-save r xs h.1)
      | inr e ↦ rw e (exists-save r (key x) xs ∙ h.0, Distinct-save r xs h.1)
    ]

    pub Distinct-append :
        (xs : List A) (a : A)
        → Distinct key xs
        → exists (λ x. key x == key a) xs ≡ false
        → Distinct key (append xs a)
    Distinct-append [] a h e = (refl, tt)
    Distinct-append (x ∷ xs) a h e = (
      exists-append (λ y. key y == key x) xs a ∙ ground arith,
      Distinct-append xs a h.1 (ground arith),
    )

    pub exists-delete_of :
        (p q : A → Bool) (xs : List A) → exists p xs ≡ false → exists p (delete q xs) ≡ false
    exists-delete_of p q [] h = refl
    exists-delete_of p q (x ∷ xs) h = ground (arith, exists-delete_of p q xs)

    pub Distinct-delete :
        (q : A → Bool) (xs : List A) → Distinct key xs → Distinct key (delete q xs)
    Distinct-delete q [] h = tt
    Distinct-delete q (x ∷ xs) h = elim (Bool-cases (q x)) [
      | inl e ↦ rw e (Distinct-delete q xs h.1)
      | inr e ↦ rw e (exists-delete_of (λ y. key y == key x) q xs h.0, Distinct-delete q xs h.1)
    ]

    count-update_absent :
        (p : A → Bool) (f : A → A) (k : ℕ) (xs : List A)
        → exists (λ x. key x == k) xs ≡ false
        → count p (update (λ x. key x == k) f xs) ≡ count p xs
    count-update_absent p f k [] h = refl
    count-update_absent p f k (x ∷ xs) h = ground (arith, count-update_absent p f k xs)

    -- An update of one row changes a count by at most one.
    pub count-update_le :
        (p : A → Bool) (f : A → A) (k : ℕ) (xs : List A)
        → Distinct key xs
        → count p (update (λ x. key x == k) f xs) ≤ count p xs + 1
    count-update_le p f k [] h = omega arith
    count-update_le p f k (x ∷ xs) h = elim (Bool-cases (key x == k)) [
      | inl e ↦ rw e (ground (arith, count-update_absent p f k xs (rw (← ==→eq _ _ e) (h.0))))
      | inr e ↦ rw e (ground (arith, count-update_le p f k xs h.1))
    ]

    pub update_absent :
        (f : A → A) (k : ℕ) (xs : List A)
        → exists (λ x. key x == k) xs ≡ false
        → update (λ x. key x == k) f xs ≡ xs
    update_absent f k [] h = refl
    update_absent f k (x ∷ xs) h = ground (arith, update_absent f k xs)

    -- A property of every row after one row was saved.
    pub All-save {κ} :
        (P Q : A → Type κ) (r : A) (xs : List A)
        → All P xs
        → Q r
        → ((x : A) → (key x == key r) ≡ false → P x → Q x)
        → All Q (update (λ x. key x == key r) (λ _. r) xs)
    All-save P Q r [] h q step = tt
    All-save P Q r (x ∷ xs) h q step = elim (Bool-cases (key x == key r)) [
      | inl e ↦ rw e (q, All-save P Q r xs h.1 q step)
      | inr e ↦ rw e (step x e h.0, All-save P Q r xs h.1 q step)
    ]

    -- A property of every row that is left after one row was deleted.
    pub All-delete {κ} :
        (P Q : A → Type κ) (k : ℕ) (xs : List A)
        → All P xs
        → ((x : A) → (key x == k) ≡ false → P x → Q x)
        → All Q (delete (λ x. key x == k) xs)
    All-delete P Q k [] h step = tt
    All-delete P Q k (x ∷ xs) h step = elim (Bool-cases (key x == k)) [
      | inl e ↦ rw e (All-delete P Q k xs h.1 step)
      | inr e ↦ rw e (step x e h.0, All-delete P Q k xs h.1 step)
    ]

    pub update_twice :
        (a b : A) (xs : List A)
        → key a ≡ key b
        → update (λ x. key x == key b) (λ _. b) (update (λ x. key x == key a) (λ _. a) xs)
          ≡ update (λ x. key x == key b) (λ _. b) xs
    update_twice a b [] h = refl
    update_twice a b (x ∷ xs) h = ground (arith, update_twice a b xs h)

    pub Distinct-update :
        (q : A → Bool) (f : A → A) (xs : List A)
        → ((x : A) → key (f x) ≡ key x)
        → Distinct key xs
        → Distinct key (update q f xs)
    Distinct-update q f [] same h = tt
    Distinct-update q f (x ∷ xs) same h =
        let kept : key (if q x then f x else x) ≡ key x = ground (arith, same x) in
        rw kept (
          exists-update (λ y. key y == key x) q f (λ y. rw (same y)) xs ∙ h.0,
          Distinct-update q f xs same h.1,
        )

    -- A row that is found by a key has that key.
    pub first_key :
        (k : ℕ) (xs : List A) (a : A)
        → first (λ x. key x == k) xs ≡ some a
        → first (λ x. key x == key a) xs ≡ some a
    first_key k xs a h =
        subst (λ j. first (λ x. key x == j) xs ≡ some a)
          (sym (==→eq _ _ (first_holds (λ x. key x == k) xs a h))) h

    -- The row that overwrites the one found by a key is found by it.
    pub first_overwritten :
        (k : ℕ) (r a : A) (xs : List A)
        → first (λ x. key x == k) xs ≡ some a
        → key r ≡ k
        → first (λ x. key x == k) (update (λ x. key x == k) (λ _. r) xs) ≡ some r
    first_overwritten k r a [] h e = absurd (ground arith)
    first_overwritten k r a (x ∷ xs) h e = elim (Bool-cases (key x == k)) [
      | inl on ↦ ground (arith, e)
      | inr off ↦ ground (arith, first_overwritten k r a xs (ground arith) e)
    ]

    -- A row gives way to one that a test takes for the same.
    pub exists-swap :
        (p : A → Bool) (k : ℕ) (a b : A) (xs : List A)
        → Distinct key xs
        → first (λ x. key x == k) xs ≡ some a
        → p b ≡ p a
        → exists p (update (λ x. key x == k) (λ _. b) xs) ≡ exists p xs
    exists-swap p k a b [] d h e = refl
    exists-swap p k a b (x ∷ xs) d h e = elim (Bool-cases (key x == k)) [
      | inl on ↦
          let rest =
            update_absent (λ _. b) k xs
              (subst (λ j. exists (λ y. key y == j) xs ≡ false) (==→eq (key x) k on) d.0) in
          ground (arith, on, e, rest)
      | inr off ↦ ground (arith, off, exists-swap p k a b xs d.1)
    ]

    delete_absent :
        (k : ℕ) (xs : List A)
        → exists (λ x. key x == k) xs ≡ false
        → delete (λ x. key x == k) xs ≡ xs
    delete_absent k [] h = refl
    delete_absent k (x ∷ xs) h = ground (arith, delete_absent k xs)

    -- A row goes that a test does not hold of.
    pub exists-drop :
        (p : A → Bool) (k : ℕ) (a : A) (xs : List A)
        → Distinct key xs
        → first (λ x. key x == k) xs ≡ some a
        → p a ≡ false
        → exists p (delete (λ x. key x == k) xs) ≡ exists p xs
    exists-drop p k a [] d h e = refl
    exists-drop p k a (x ∷ xs) d h e = elim (Bool-cases (key x == k)) [
      | inl on ↦
          let rest =
            delete_absent k xs
              (subst (λ j. exists (λ y. key y == j) xs ≡ false) (==→eq (key x) k on) d.0) in
          ground (arith, on, e, rest)
      | inr off ↦ ground (arith, off, exists-drop p k a xs d.1)
    ]
