-- ===== src/Hackathon/Staff/Keys.antt =====
-- The rows of the staff (`HackathonStaff`) where one is added, changed or removed.
use srkrcc_main_application.Common.{
  ℕ, suc, ◌<◌, ◌≡◌, refl, sym, ◌∙◌, false, some, List, [], ◌∷◌, arith, ◌==◌, exists, first, update,
  delete, append, Bool-cases, inl, inr, ==→eq,
}
use srkrcc_main_application.Common.Rows.Laws.{
  Distinct, All, exists-append, exists-swap, exists-drop, Distinct-append, Distinct-delete,
  Distinct-save, All-delete, first_holds,
}
use srkrcc_main_application.Hackathon.Model.{Permission, Staff}
use srkrcc_main_application.Hackathon.Monad.{Db}
use srkrcc_main_application.Hackathon.Store.{granted}
use srkrcc_main_application.Hackathon.Staff.{is_among, gives}
use srkrcc_main_application.Hackathon.Staff.Grants.{has}

abbrev pub staff_key : Staff → ℕ
staff_key row = row.pk

-- Primary keys are unique, and fresh ones are not in use.
pub record HasKeys (db : Db) : Type 0 where
  pub used : All (λ row. row.pk < db.next_pk) db.staff
  pub unique : Distinct staff_key db.staff

fresh_absent :
    (n : ℕ) (rows : List Staff)
    → All (λ row. row.pk < n) rows
    → exists (λ row. row.pk == n) rows ≡ false
fresh_absent n [] h = refl
fresh_absent n (row ∷ rows) (low, h) = ground (arith, low, fresh_absent n rows h)

used_later :
    (n m : ℕ) (rows : List Staff)
    → n < m
    → All (λ row. row.pk < n) rows
    → All (λ row. row.pk < m) rows
used_later n m [] k h = tt
used_later n m (row ∷ rows) k (low, h) = (omega (arith, low, k), used_later n m rows k h)

used-append :
    (n : ℕ) (row : Staff) (rows : List Staff)
    → row.pk < n
    → All (λ x. x.pk < n) rows
    → All (λ x. x.pk < n) (append rows row)
used-append n row [] k h = (k, tt)
used-append n row (x ∷ rows) k (low, h) = (low, used-append n row rows k h)

used-swap :
    (n k : ℕ) (row : Staff) (rows : List Staff)
    → row.pk ≡ k
    → All (λ x. x.pk < n) rows
    → All (λ x. x.pk < n) (update (λ x. x.pk == k) (λ _. row) rows)
used-swap n k row [] e h = tt
used-swap n k row (x ∷ rows) e (low, h) = elim (Bool-cases (x.pk == k)) [
  | inl y ↦ rw y (omega (arith, ==→eq x.pk k y, e, low), used-swap n k row rows e h)
  | inr y ↦ rw y (low, used-swap n k row rows e h)
]

-- Who has the permission stays the same, and so do the rules of the keys.
abbrev pub Keeps : Permission → Db → Db → Type 0
Keeps p db db' = HasKeys db' × ((u : ℕ) → has db' u p ≡ has db u p)

pub Keeps-append :
    (p : Permission) (row : Staff) (db db' : Db)
    → HasKeys db
    → row.pk ≡ db.next_pk
    → is_among (granted row) p ≡ false
    → db'.staff ≡ append db.staff row
    → db'.next_pk ≡ suc db.next_pk
    → Keeps p db db'
Keeps-append p row db db' k at n e f = (
  record {
    used = rw e (
        rw f (
          used-append (suc db.next_pk) row db.staff (omega (arith, at))
            (used_later db.next_pk (suc db.next_pk) db.staff (omega arith) k.used)));
    unique = rw e (
        Distinct-append staff_key db.staff row k.unique
          (rw at (fresh_absent db.next_pk db.staff k.used)));
  },
  λ u. rw e (exists-append (gives u p) db.staff row ∙ ground (arith, n)),
)

pub Keeps-swap :
    (p : Permission) (i : ℕ) (old row : Staff) (db db' : Db)
    → HasKeys db
    → first (λ x. x.pk == i) db.staff ≡ some old
    → row.pk ≡ old.pk
    → is_among (granted old) p ≡ false
    → is_among (granted row) p ≡ false
    → db'.staff ≡ update (λ x. x.pk == i) (λ _. row) db.staff
    → db'.next_pk ≡ db.next_pk
    → Keeps p db db'
Keeps-swap p i old row db db' k found at n m e f =
    let here : row.pk ≡ i = at ∙ ==→eq old.pk i (first_holds (λ x. x.pk == i) db.staff old found) in
    (
      record {
        used = rw e (rw f (used-swap db.next_pk i row db.staff here k.used));
        unique = rw e (rw (sym here) (Distinct-save staff_key row db.staff k.unique));
      },
      λ u. rw e (
          exists-swap staff_key (gives u p) i old row db.staff k.unique found
            (ground (arith, n, m))),
    )

pub Keeps-drop :
    (p : Permission) (i : ℕ) (old : Staff) (db db' : Db)
    → HasKeys db
    → first (λ x. x.pk == i) db.staff ≡ some old
    → is_among (granted old) p ≡ false
    → db'.staff ≡ delete (λ x. x.pk == i) db.staff
    → db'.next_pk ≡ db.next_pk
    → Keeps p db db'
Keeps-drop p i old db db' k found n e f = (
  record {
    used = rw e (
        rw f (
          All-delete staff_key (λ x. x.pk < db.next_pk) (λ x. x.pk < db.next_pk) i db.staff k.used
            (λ x off low. low)));
    unique = rw e (Distinct-delete staff_key (λ x. x.pk == i) db.staff k.unique);
  },
  λ u. rw e (exists-drop staff_key (gives u p) i old db.staff k.unique found (ground (arith, n))),
)
