-- ===== src/Hackathon/Staff/Delegation.antt =====
-- What people who manage the staff of a hackathon, without being site organizers, can change.
use srkrcc_main_application.Common.{
  ℕ, suc, ◌≡◌, refl, sym, subst, ◌∙◌, String, str_eq, strip, false, ◌&&◌, Option, none, some, List,
  [], ◌∷◌, arith, ◌==◌, first, update, delete, append, Option-cases, inl, inr, ◌⊎◌, Python,
}
use srkrcc_main_application.Hackathon.Model.{StaffRole, Permission, User, Staff}
use srkrcc_main_application.Hackathon.Monad.{Db, Result, ok, err}
use srkrcc_main_application.Hackathon.Outcome.{Result-cases}
use srkrcc_main_application.Hackathon.Store.{granted}
use srkrcc_main_application.Hackathon.Staff.{
  is_among, is_role, RawPermissions, clean_permissions, require_can_grant, get_or_create, add_staff,
  update_permissions, remove_staff,
}
use srkrcc_main_application.Hackathon.Staff.Grants.{has, grant_lem, clean_lem}
use srkrcc_main_application.Hackathon.Staff.Keys.{
  HasKeys, Keeps, Keeps-append, Keeps-swap, Keeps-drop,
}

abbrev new_row : ℕ → User → User → StaffRole → List Permission → Staff
new_row pk actor user role asked = record {
  pk = pk;
  user = user.pk;
  role = role;
  permissions = asked;
  added_by = some actor.pk;
}

get_or_create_lem :
    (actor user : User) (role : StaffRole) (asked : List Permission) (db db' : Db) (r : Staff)
    → get_or_create actor user role asked db ≡ ok (r, db')
    → (db' ≡ db)
      ⊎ ((db'.staff ≡ append db.staff (new_row db.next_pk actor user role asked))
          × (db'.next_pk ≡ suc db.next_pk))
unfolding get_or_create
get_or_create_lem actor user role asked db db' r h =
    elim (Option-cases (first (λ row. row.user == user.pk && is_role row.role role) db.staff)) [
      | inr (row, e) ↦ inl (ground (arith, e, h))
      | inl e ↦ inr (ground (arith, e, h), ground (arith, e, h))
    ]

-- What a removal that succeeds has found and done.
remove_staff_lem :
    (actor : User) (pk : ℕ) (db db' : Db)
    → remove_staff actor pk db ≡ ok (tt, db')
    → (row : Staff) × (db1 : Db) × (first (λ x. x.pk == pk) db.staff ≡ some row)
      × (require_can_grant actor (granted row) db ≡ ok (tt, db1))
      × ((db1 ≡ db) → (db'.staff ≡ delete (λ x. x.pk == pk) db.staff) × (db'.next_pk ≡ db.next_pk))
unfolding remove_staff
remove_staff_lem actor pk db db' h = elim (Option-cases (first (λ row. row.pk == pk) db.staff)) [
  | inl e ↦ absurd (ground (arith, e, h))
  | inr (row, e) ↦ elim (Result-cases (require_can_grant actor (granted row) db)) [
    | inl (x, f) ↦ absurd (ground (arith, e, f, h))
    | inr ((u, db1), f) ↦
        (row, db1, e, f, λ g. (ground (arith, e, f, h, g), ground (arith, e, f, h, g)))
  ]
]

update_permissions_lem :
    (actor : User) (pk : ℕ) (raw : RawPermissions) (db db' : Db) (r : Staff)
    → update_permissions actor pk raw db ≡ ok (r, db')
    → (row : Staff) × (asked : List Permission) × (db1 : Db) × (db2 : Db) × (db3 : Db) × (first
          (λ x. x.pk == pk)
          db.staff
        ≡ some row)
      × (clean_permissions raw row.role db ≡ ok (asked, db1))
      × (require_can_grant actor asked db1 ≡ ok (tt, db2))
      × (require_can_grant actor (granted row) db2 ≡ ok (tt, db3))
      × ((db3 ≡ db)
          → (db'.staff
              ≡ update (λ x. x.pk == pk) (λ _. record row { permissions = asked }) db.staff)
            × (db'.next_pk ≡ db.next_pk))
unfolding update_permissions
update_permissions_lem actor pk raw db db' r h =
    elim (Option-cases (first (λ row. row.pk == pk) db.staff)) [
      | inl e ↦ absurd (ground (arith, e, h))
      | inr (row, e) ↦ elim (Result-cases (clean_permissions raw row.role db)) [
        | inl (x, f) ↦ absurd (ground (arith, e, f, h))
        | inr ((asked, db1), f) ↦ elim (Result-cases (require_can_grant actor asked db1)) [
          | inl (x, g) ↦ absurd (ground (arith, e, f, g, h))
          | inr ((u, db2), g) ↦ elim (Result-cases (require_can_grant actor (granted row) db2)) [
            | inl (x, j) ↦ absurd (ground (arith, e, f, g, j, h))
            | inr ((v, db3), j) ↦ (
              row,
              asked,
              db1,
              db2,
              db3,
              e,
              f,
              g,
              j,
              λ k. (ground (arith, e, f, g, j, h, k), ground (arith, e, f, g, j, h, k)),
            )
          ]
        ]
      ]
    ]

add_staff_lem :
    (py : Python) (actor : User) (email : String) (requested : Option StaffRole)
    (raw : RawPermissions) (db db' : Db) (r : Staff)
    → add_staff py actor email requested raw db ≡ ok (r, db')
    → (role : StaffRole) × (asked : List Permission) × (user : User) × (db1 : Db) × (db2 : Db)
      × (clean_permissions raw role db ≡ ok (asked, db1))
      × (require_can_grant actor asked db1 ≡ ok (tt, db2))
      × (get_or_create actor user role asked db2 ≡ ok (r, db'))
unfolding add_staff
add_staff_lem py actor email none raw db db' r h = absurd (ground (arith, h))
add_staff_lem py actor email (some role) raw db db' r h =
    elim (Result-cases (clean_permissions raw role db)) [
      | inl (x, f) ↦ absurd (ground (arith, f, h))
      | inr ((asked, db1), f) ↦ elim (Result-cases (require_can_grant actor asked db1)) [
        | inl (x, g) ↦ absurd (ground (arith, f, g, h))
        | inr ((u, db2), g) ↦
            elim (Option-cases
              (first (λ u. str_eq (py.lower u.email) (py.lower (strip email))) db.users)) [
                | inl n ↦ absurd (ground (arith, f, g, n, h))
                | inr (user, n) ↦ (role, asked, user, db1, db2, f, g, ground (arith, f, g, n, h))
              ]
      ]
    ]

module _ (py : Python) (actor : User) (p : Permission) (db : Db) (o : actor.site_organizer ≡ false)
    (lacks : has db actor.pk p ≡ false) (k : HasKeys db) where
  -- What was asked for and may be granted, on rows that have not changed yet.
  asked_lem :
      (raw : RawPermissions) (role : StaffRole) (asked : List Permission) (db1 db2 : Db)
      → clean_permissions raw role db ≡ ok (asked, db1)
      → require_can_grant actor asked db1 ≡ ok (tt, db2)
      → (db2 ≡ db)
        × (is_among asked p ≡ false)
        × ((pk user : ℕ) (by : Option ℕ)
            → granted
                (record { pk = pk; user = user; role = role; permissions = asked; added_by = by })
              ≡ asked)
  asked_lem raw role asked db1 db2 f g =
      let (same, full) = clean_lem raw role asked db db1 f in
      let (same', free) =
        grant_lem actor asked p db db2 o lacks
          (subst (λ d. require_can_grant actor asked d ≡ ok (tt, db2)) same g) in
      (same', free, full)

  update_permissions-Keeps :
      (pk : ℕ) (raw : RawPermissions) (db' : Db) (r : Staff)
      → update_permissions actor pk raw db ≡ ok (r, db')
      → Keeps p db db'
  update_permissions-Keeps pk raw db' r h =
      let (row, asked, db1, db2, db3, found, f, g, j, done) =
        update_permissions_lem actor pk raw db db' r h in
      let (same, free, full) = asked_lem raw row.role asked db1 db2 f g in
      let (same', held) =
        grant_lem actor (granted row) p db db3 o lacks
          (subst (λ d. require_can_grant actor (granted row) d ≡ ok (tt, db3)) same j) in
      let free' : is_among (granted (record row { permissions = asked })) p ≡ false =
        rw (full row.pk row.user row.added_by) free in
      Keeps-swap p pk row (record row { permissions = asked }) db db' k found refl held free'
        (done same').0 (done same').1

  remove_staff-Keeps :
      (pk : ℕ) (db' : Db) → remove_staff actor pk db ≡ ok (tt, db') → Keeps p db db'
  remove_staff-Keeps pk db' h =
      let (row, db1, found, g, done) = remove_staff_lem actor pk db db' h in
      let (same, held) = grant_lem actor (granted row) p db db1 o lacks g in
      Keeps-drop p pk row db db' k found held (done same).0 (done same).1

  add_staff-Keeps :
      (email : String) (requested : Option StaffRole) (raw : RawPermissions) (db' : Db) (r : Staff)
      → add_staff py actor email requested raw db ≡ ok (r, db')
      → Keeps p db db'
  add_staff-Keeps email requested raw db' r h =
      let (role, asked, user, db1, db2, f, g, made) =
        add_staff_lem py actor email requested raw db db' r h in
      let (same, free, full) = asked_lem raw role asked db1 db2 f g in
      let made' = subst (λ d. get_or_create actor user role asked d ≡ ok (r, db')) same made in
      elim (get_or_create_lem actor user role asked db db' r made') [
        | inl e ↦ subst (Keeps p db) (sym e) (k, λ u. refl)
        | inr (e, n) ↦
            Keeps-append p (new_row db.next_pk actor user role asked) db db' k refl
              (rw (full db.next_pk user.pk (some actor.pk)) free) e n
      ]

-- A request on the staff of the hackathon.
pub data StaffRequest : Type 0 where
  add_person : String → Option StaffRole → RawPermissions → StaffRequest
  change_permissions : ℕ → RawPermissions → StaffRequest
  remove_person : ℕ → StaffRequest

abbrev pub after : {A : Type 0} → Result (A × Db) → Db → Db
after (ok (a, db')) db = db'
after (err e) db = db

unfoldable pub handle : Python → User → StaffRequest → Db → Db
handle py actor (add_person email role raw) db = after (add_staff py actor email role raw db) db
handle py actor (change_permissions pk raw) db = after (update_permissions actor pk raw db) db
handle py actor (remove_person pk) db = after (remove_staff actor pk db) db

unfoldable pub handle_all : Python → User → List StaffRequest → Db → Db
handle_all py actor [] db = db
handle_all py actor (r ∷ rs) db = handle_all py actor rs (handle py actor r db)

handle-Keeps :
    (py : Python) (actor : User) (p : Permission) (r : StaffRequest) (db : Db)
    → actor.site_organizer ≡ false
    → has db actor.pk p ≡ false
    → HasKeys db
    → Keeps p db (handle py actor r db)
unfolding handle
handle-Keeps py actor p (add_person email role raw) db o lacks k =
    elim (Result-cases (add_staff py actor email role raw db)) [
      | inl (x, e) ↦ rw e (k, λ u. refl)
      | inr ((row, db'), e) ↦
          rw e (add_staff-Keeps py actor p db o lacks k email role raw db' row e)
    ]
handle-Keeps py actor p (change_permissions pk raw) db o lacks k =
    elim (Result-cases (update_permissions actor pk raw db)) [
      | inl (x, e) ↦ rw e (k, λ u. refl)
      | inr ((row, db'), e) ↦
          rw e (update_permissions-Keeps py actor p db o lacks k pk raw db' row e)
    ]
handle-Keeps py actor p (remove_person pk) db o lacks k =
    elim (Result-cases (remove_staff actor pk db)) [
      | inl (x, e) ↦ rw e (k, λ u. refl)
      | inr ((u, db'), e) ↦ rw e (remove_staff-Keeps py actor p db o lacks k pk db' e)
    ]

-- A person who is no site organizer changes, by any requests on the staff, only who has the permissions
-- that this person has: of every other permission, each person has it afterwards just if before.
pub handle_all_keeps :
    (py : Python) (actor : User) (p : Permission) (rs : List StaffRequest) (db : Db) (u : ℕ)
    → actor.site_organizer ≡ false
    → has db actor.pk p ≡ false
    → HasKeys db
    → has (handle_all py actor rs db) u p ≡ has db u p
unfolding handle_all
handle_all_keeps py actor p [] db u o lacks k = refl
handle_all_keeps py actor p (r ∷ rs) db u o lacks k =
    let (k', same) = handle-Keeps py actor p r db o lacks k in
    handle_all_keeps py actor p rs (handle py actor r db) u o (same actor.pk ∙ lacks) k' ∙ same u
