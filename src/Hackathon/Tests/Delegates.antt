-- ===== src/Hackathon/Tests/Delegates.antt =====
-- A person of the staff who gives away what he has, and one who tries to get more.
use srkrcc_main_application.Common.{◌≡◌, refl, true, none, some, List, [], ◌∷◌, strip, arith}
use srkrcc_main_application.Hackathon.Model.{organizer, volunteer, results, staff, check_in}
use srkrcc_main_application.Hackathon.Monad.{Db}
use srkrcc_main_application.Hackathon.Staff.{
  keys, left_out, add_staff, update_permissions, clean_permissions, require_can_grant,
  get_or_create, my_permissions,
}
use srkrcc_main_application.Hackathon.Staff.Grants.{has}
use srkrcc_main_application.Hackathon.Staff.Keys.{HasKeys}
use srkrcc_main_application.Hackathon.Staff.Delegation.{
  StaffRequest, add_person, change_permissions, handle, handle_all, handle_all_keeps,
}
use srkrcc_main_application.Hackathon.Tests.{plain_python, bob, summer_db}

-- Bob manages the staff, and checks people in.
abbrev staffed_db : Db
staffed_db = record summer_db {
  staff =
      record {
        pk = 7;
        user = 2;
        role = organizer;
        permissions = staff ∷ check_in ∷ [];
        added_by = none;
      }
      ∷ [];
}

abbrev bob_requests : List StaffRequest
bob_requests =
    add_person "cyd@example.org" (some volunteer) left_out
    ∷ add_person "dan@example.org" (some organizer) (keys (some results ∷ []))
    ∷ change_permissions 60 (keys (some staff ∷ []))
    ∷ []

staffed-HasKeys : HasKeys staffed_db
staffed-HasKeys = record { used = (omega arith, tt); unique = (refl, tt) }

-- The volunteer is added, and then manages the staff.
volunteer_added : has (handle_all plain_python bob bob_requests staffed_db) 3 staff ≡ true
unfolding handle_all handle add_staff update_permissions clean_permissions require_can_grant
    my_permissions get_or_create strip
volunteer_added = refl

handle_all_keeps_example :
    has (handle_all plain_python bob bob_requests staffed_db) 4 results ≡ has staffed_db 4 results
handle_all_keeps_example =
    handle_all_keeps plain_python bob results bob_requests staffed_db 4 refl refl staffed-HasKeys
