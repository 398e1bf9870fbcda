-- ===== src/Hackathon/Staff.antt =====
-- `StaffService` of apps/hackathons/judging.py, and the permissions of apps/hackathons/access.py.
pub mod Grants
pub mod Keys
pub mod Delegation
use srkrcc_main_application.Common.{
  strip, ℕ, String, Bool, true, false, not, ◌&&◌, ◌||◌, Option, none, some, List, [], ◌∷◌, ◌==◌,
  leb, str_eq, count, exists, first, select, update, delete, append, if◌then◌else◌, Python,
}
use srkrcc_main_application.Hackathon.Model.{
  StaffRole, organizer, judge, volunteer, Permission, settings, content, teams, rounds, ideas,
  submissions, judging, judge_projects, results, check_in, insights, staff, User, Staff,
}
use srkrcc_main_application.Hackathon.Monad.{
  Db, Action, ◌>>=◌, ◌>>◌, pure, raise, raise_if, modify, when, or_raise, emit, fresh, audit,
  notify, gets, added_staff, changed_staff_permissions, removed_staff, permission_denied, invalid,
  limit_reached, user_not_found, conflict, not_found,
}
use srkrcc_main_application.Hackathon.Store.{preset_permissions, granted, has_team}

-- The place of a permission in `ALL_PERMISSIONS`.
abbrev pub position : Permission → ℕ
position settings = 0
position content = 1
position teams = 2
position rounds = 3
position ideas = 4
position submissions = 5
position judging = 6
position judge_projects = 7
position results = 8
position check_in = 9
position insights = 10
position staff = 11

abbrev pub all_permissions : List Permission
all_permissions =
    settings ∷ content ∷ teams ∷ rounds ∷ ideas ∷ submissions ∷ judging ∷ judge_projects ∷ results
    ∷ check_in ∷ insights ∷ staff ∷ []

-- `key in keys`
abbrev pub is_among : List Permission → Permission → Bool
is_among keys p = exists (λ q. position q == position p) keys

-- Whether a row of the staff gives a permission to a person.
abbrev pub gives : ℕ → Permission → Staff → Bool
gives user p row = row.user == user && is_among (granted row) p

-- `my_permissions`
unfoldable pub my_permissions : Db → User → List Permission
my_permissions db user =
    if user.site_organizer
    then all_permissions
    else select (λ p. exists (gives user.pk p) db.staff) all_permissions

abbrev role_number : StaffRole → ℕ
role_number organizer = 0
role_number judge = 1
role_number volunteer = 2

abbrev pub is_role : StaffRole → StaffRole → Bool
is_role r s = role_number r == role_number s

-- `permissions` of a request body; a key that is no permission is `none`.
pub data RawPermissions : Type 0 where
  left_out : RawPermissions
  not_a_list : RawPermissions
  keys : List (Option Permission) → RawPermissions

abbrev pub known_keys : List (Option Permission) → Option (List Permission)
known_keys [] = some []
known_keys (none ∷ ks) = none
known_keys (some p ∷ ks) = elim (known_keys ks) [ none ↦ none | some ps ↦ some (p ∷ ps) ]

abbrev pub in_order : List Permission → Action (List Permission)
in_order ps = elim (select (is_among ps) all_permissions) [
  | [] ↦ raise invalid
  | q ∷ qs ↦ pure (q ∷ qs)
]

-- `_clean_permissions`
unfoldable pub clean_permissions : RawPermissions → StaffRole → Action (List Permission)
clean_permissions left_out role = pure (preset_permissions role)
clean_permissions not_a_list role = raise invalid
clean_permissions (keys ks) role = elim (known_keys ks) [
  | none ↦ raise invalid
  | some ps ↦ in_order ps
]

-- `set(asked) - set(held)` is not empty
abbrev pub is_beyond : List Permission → List Permission → Bool
is_beyond held asked = exists (λ p. not (is_among held p)) asked

-- `_require_can_grant`, and the same test of what another person holds
unfoldable pub require_can_grant : User → List Permission → Action (Unit {0})
unfolding my_permissions
require_can_grant actor asked db =
    raise_if (not actor.site_organizer && is_beyond (my_permissions db actor) asked)
      permission_denied db

-- `MAX_STAFF_PER_ROLE`
abbrev pub max_staff_per_role : ℕ
max_staff_per_role = 50

-- `'judge' in granted and hackathon.memberships.filter(user=user).exists()`
abbrev pub is_conflict : ℕ → List Permission → Db → Bool
is_conflict user asked db = is_among asked judge_projects && has_team user db.members

-- `HackathonStaff.objects.get_or_create`, and what follows where the row is new
unfoldable pub get_or_create : User → User → StaffRole → List Permission → Action Staff
get_or_create actor user role asked db =
    elim (first (λ row. row.user == user.pk && is_role row.role role) db.staff) [
      | some row ↦ pure row db
      | none ↦
          (do
            pk ← fresh
            let row : Staff = record {
              pk = pk;
              user = user.pk;
              role = role;
              permissions = asked;
              added_by = some actor.pk;
            }
            modify λ db. record db { staff = append db.staff row }
            emit (audit (some actor.pk) added_staff user.pk)
            emit (notify (user.pk ∷ []) user.pk)
            pure row)
            db
    ]

module _ (py : Python) where
  unfoldable pub add_staff : User → String → Option StaffRole → RawPermissions → Action Staff
  add_staff actor email requested raw db =
      (do
        role ← or_raise requested invalid
        asked ← clean_permissions raw role
        require_can_grant actor asked
        holders ← gets (λ db. count (λ row. is_role row.role role) db.staff)
        raise_if (leb max_staff_per_role holders) limit_reached
        user ←
            or_raise (first (λ u. str_eq (py.lower u.email) (py.lower (strip email))) db.users)
              user_not_found
        raise_if (is_conflict user.pk asked db) conflict
        get_or_create actor user role asked)
        db

-- `hackathon.staff.filter(pk=staff_id).first()`
abbrev pub staff_row : ℕ → Action Staff
staff_row pk db = or_raise (first (λ row. row.pk == pk) db.staff) not_found db

unfoldable pub update_permissions : User → ℕ → RawPermissions → Action Staff
update_permissions actor pk raw db =
    (do
      row ← staff_row pk
      raise_if (row.user == actor.pk && not actor.site_organizer) permission_denied
      asked ← clean_permissions raw row.role
      require_can_grant actor asked
      require_can_grant actor (granted row)
      raise_if (is_conflict row.user asked db) conflict
      let row' = record row { permissions = asked }
      modify λ db. record db { staff = update (λ x. x.pk == pk) (λ _. row') db.staff }
      emit (audit (some actor.pk) changed_staff_permissions row.user)
      pure row')
      db

unfoldable pub remove_staff : User → ℕ → Action (Unit {0})
remove_staff actor pk db =
    (do
      row ← staff_row pk
      raise_if (row.user == actor.pk && not actor.site_organizer) permission_denied
      require_can_grant actor (granted row)
      modify λ db. record db { staff = delete (λ x. x.pk == pk) db.staff }
      emit (audit (some actor.pk) removed_staff row.user))
      db
