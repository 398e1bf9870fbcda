-- ===== src/Hackathon/Staff/Grants.antt =====
-- The permissions that `_clean_permissions` and `_require_can_grant` let through.
use srkrcc_main_application.Common.{
  ℕ, ◌≡◌, refl, sym, ap, subst, ◌∙◌, Bool, true, false, ◌&&◌, Option, List, [], ◌∷◌, arith, ◌==◌,
  exists, select, Bool-cases, Option-cases, inl, inr, ◌⊎◌, ==→eq,
}
use srkrcc_main_application.Hackathon.Model.{
  StaffRole, organizer, judge, volunteer, Permission, User, Staff,
}
use srkrcc_main_application.Hackathon.Monad.{Db, ok}
use srkrcc_main_application.Hackathon.Store.{granted}
use srkrcc_main_application.Hackathon.Staff.{
  position, all_permissions, is_among, gives, my_permissions, RawPermissions, left_out, not_a_list,
  keys, known_keys, clean_permissions, is_beyond, require_can_grant,
}

List-cases {ℓ} :
    {A : Type ℓ} (xs : List A) → (xs ≡ []) ⊎ ((y : A) × ((ys : List A) × (xs ≡ y ∷ ys)))
List-cases [] = inl refl
List-cases (y ∷ ys) = inr (y, (ys, refl))

among_same :
    (ps : List Permission) (p q : Permission)
    → position q ≡ position p
    → is_among ps q ≡ is_among ps p
among_same ps p q h = ap (λ n. exists (λ r. position r == n) ps) h

among_select :
    (f : Permission → Bool) (p : Permission) (ps : List Permission)
    → ((q : Permission) → position q ≡ position p → f q ≡ f p)
    → is_among (select f ps) p ≡ true
    → f p ≡ true
among_select f p [] same h = absurd (ground arith)
among_select f p (q ∷ ps) same h = elim (Bool-cases (f q)) [
  | inr e ↦ among_select f p ps same (rw e at h)
  | inl e ↦ elim (Bool-cases (position q == position p)) [
    | inl here ↦ sym (same q (==→eq (position q) (position p) here)) ∙ e
    | inr off ↦ among_select f p ps same (ground (arith, h, e, off))
  ]
]

among_beyond :
    (held asked : List Permission) (p : Permission)
    → is_beyond held asked ≡ false
    → is_among asked p ≡ true
    → is_among held p ≡ true
among_beyond held [] p h k = absurd (ground arith)
among_beyond held (q ∷ asked) p h k = elim (Bool-cases (position q == position p)) [
  | inl here ↦ sym (among_same held p q (==→eq (position q) (position p) here)) ∙ ground (arith, h)
  | inr off ↦ among_beyond held asked p (ground (arith, h)) (rw off at k)
]

-- Whether a person has a permission here.
abbrev pub has : Db → ℕ → Permission → Bool
has db user p = exists (gives user p) db.staff

gives_same :
    (u : ℕ) (p q : Permission) (row : Staff)
    → position q ≡ position p
    → gives u q row ≡ gives u p row
gives_same u p q row h = ap (λ b. row.user == u && b) (among_same (granted row) p q h)

has_same :
    (u : ℕ) (p q : Permission) (rows : List Staff)
    → position q ≡ position p
    → exists (gives u q) rows ≡ exists (gives u p) rows
has_same u p q [] h = refl
has_same u p q (row ∷ rows) h = ground (arith, gives_same u p q row h, has_same u p q rows h)

-- Permissions that a person may hand out do not have one that the person has not.
pub grant_lem :
    (actor : User) (asked : List Permission) (p : Permission) (db db' : Db)
    → actor.site_organizer ≡ false
    → has db actor.pk p ≡ false
    → require_can_grant actor asked db ≡ ok (tt, db')
    → (db' ≡ db) × (is_among asked p ≡ false)
unfolding require_can_grant my_permissions
grant_lem actor asked p db db' o h k =
    let held = select (λ q. has db actor.pk q) all_permissions in
    let within = among_beyond held asked p in
    let mine = among_select (λ q. has db actor.pk q) p all_permissions in
    elim (Bool-cases (is_beyond held asked)) [
      | inl b ↦ absurd (ground (arith, o, k, b))
      | inr b ↦ elim (Bool-cases (is_among asked p)) [
        | inl c ↦
            absurd (ground (arith, h, mine (λ q e. has_same actor.pk p q db.staff e) (within b c)))
        | inr c ↦ (ground (arith, o, k, b), c)
      ]
    ]

-- What is cleaned is given in full by a row of that role.
pub clean_lem :
    (raw : RawPermissions) (r : StaffRole) (asked : List Permission) (db db' : Db)
    → clean_permissions raw r db ≡ ok (asked, db')
    → (db' ≡ db)
      × ((pk user : ℕ) (by : Option ℕ)
          → granted (record { pk = pk; user = user; role = r; permissions = asked; added_by = by })
            ≡ asked)
unfolding clean_permissions
clean_lem left_out organizer asked db db' h = (ground arith, λ pk user by. ground arith)
clean_lem left_out judge asked db db' h = (ground arith, λ pk user by. ground arith)
clean_lem left_out volunteer asked db db' h = (ground arith, λ pk user by. ground arith)
clean_lem not_a_list r asked db db' h = absurd (ground arith)
clean_lem (keys ks) r asked db db' h = elim (Option-cases (known_keys ks)) [
  | inl e ↦ absurd (ground (arith, e, h))
  | inr (ps, e) ↦ elim (List-cases (select (is_among ps) all_permissions)) [
    | inl n ↦ absurd (ground (arith, e, n, h))
    | inr (q, (qs, n)) ↦ (
      ground (arith, e, n, h),
      λ pk user by.
          let same : q ∷ qs ≡ asked = ground (arith, e, n, h) in
          subst
            (λ xs.
              granted (record { pk = pk; user = user; role = r; permissions = xs; added_by = by })
              ≡ xs)
            same refl,
    )
  ]
]
