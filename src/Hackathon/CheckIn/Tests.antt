-- ===== src/Hackathon/CheckIn/Tests.antt =====
-- A hackathon of two days that becomes one of one day, after someone was checked in on the second.
use srkrcc_main_application.Common.{◌≡◌, refl, true, false, none, some, List, [], ◌∷◌, map}
use srkrcc_main_application.Hackathon.CheckIn.{
  Schedule, has_check_ins, sync, clamp_schedule, main_check_in_session, visit_slot, visit_day,
  visit_days, retire, retire_all, delete_session,
}
use srkrcc_main_application.Hackathon.CheckIn.Retained.{
  is_there, SessionRequest, match_schedule, remove_session, handle_session, handle_sessions,
  handle_sessions_keep,
}

abbrev two_days : Schedule
two_days = record {
  days = some 2;
  slots = some 1;
  first_day = 100;
  opens_at = none;
  closes_at = none;
  next_pk = 1;
  sessions = [];
  check_ins = 2 ∷ [];
}

abbrev shrinking : List SessionRequest
shrinking =
    match_schedule (some 2) (some 1) ∷ match_schedule (some 1) (some 1) ∷ remove_session 2 ∷ []

second_day : is_there (sync two_days) 2 ≡ true
unfolding sync clamp_schedule main_check_in_session visit_days visit_day visit_slot retire_all
    retire
second_day = refl

second_day_checked : has_check_ins (sync two_days) 2 ≡ true
unfolding sync clamp_schedule main_check_in_session visit_days visit_day visit_slot retire_all
    retire
second_day_checked = refl

-- The session of the second day stays, outside the schedule.
second_day_retired :
    map (λ s. s.outside_schedule) (handle_sessions shrinking two_days).sessions
    ≡ (false ∷ true ∷ [])
unfolding handle_sessions handle_session sync clamp_schedule main_check_in_session visit_days
    visit_day visit_slot retire_all retire delete_session
second_day_retired = refl

handle_sessions_keep_example : is_there (handle_sessions shrinking (sync two_days)) 2 ≡ true
handle_sessions_keep_example =
    handle_sessions_keep shrinking (sync two_days) 2 second_day_checked second_day
