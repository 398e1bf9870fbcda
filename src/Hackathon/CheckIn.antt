-- ===== src/Hackathon/CheckIn.antt =====
-- apps/hackathons/check_in_sessions.py: the sessions that people are checked in to.
pub mod Retained
mod Tests
use srkrcc_main_application.Common.{
  ℕ, zero, suc, ◌+◌, ◌≤◌, min, max, String, Bool, true, false, not, ◌&&◌, ◌||◌, Option, none, some,
  List, [], ◌∷◌, ◌==◌, ltb, leb, is_at, first, exists, select, update, delete, append,
  if◌then◌else◌,
}
use srkrcc_main_application.Hackathon.Monad.{Result, ok, err, Error, not_custom}

-- A `CheckInSession`; the slots of a day are numbered in `SLOT_ORDER`, a date is a day number.
pub record Session : Type 0 where
  pub pk : ℕ
  pub day_index : ℕ
  pub slot : Option ℕ
  pub is_custom : Bool
  pub is_main : Bool
  pub date : ℕ
  pub name : String
  pub opens_at : Option ℕ
  pub closes_at : Option ℕ
  pub needs_arrival : Bool
  pub counts_for_certificate : Bool
  pub is_active : Bool
  pub outside_schedule : Bool

-- The hackathon's settings and rows; `none` where the number of days or slots is not a whole number, and a
-- negative one counts as 0, since both are used as 1.
pub record Schedule : Type 0 where
  pub days : Option ℕ
  pub slots : Option ℕ
  pub first_day : ℕ
  pub opens_at : Option ℕ
  pub closes_at : Option ℕ
  pub next_pk : ℕ
  pub sessions : List Session
  pub check_ins : List ℕ  -- the session of each `CheckIn`

-- `MAX_DAYS`
abbrev pub max_days : ℕ
max_days = 14

abbrev whole_or_one : Option ℕ → ℕ
whole_or_one none = 1
whole_or_one (some n) = n

-- `clamp_schedule`
unfoldable pub clamp_schedule : Option ℕ → Option ℕ → ℕ × ℕ
clamp_schedule days slots =
    (max 1 (min (whole_or_one days) max_days), max 1 (min (whole_or_one slots) 3))

abbrev pub same_slot : Option ℕ → Option ℕ → Bool
same_slot none none = true
same_slot none (some j) = false
same_slot (some i) none = false
same_slot (some i) (some j) = i == j

-- A generated session of that day and slot.
abbrev pub is_at_key : ℕ → Option ℕ → Session → Bool
is_at_key day slot s = not s.is_custom && s.day_index == day && same_slot s.slot slot

abbrev pub set_session : ℕ → (Session → Session) → Schedule → Schedule
set_session pk f h = record h { sessions = update (λ s. s.pk == pk) f h.sessions }

abbrev pub add_session : (ℕ → Session) → Schedule → Schedule
add_session make h = record h {
  sessions = append h.sessions (make h.next_pk);
  next_pk = suc h.next_pk;
}

abbrev pub generated : ℕ → ℕ → ℕ → ℕ → Session
generated day slot date pk = record {
  pk = pk;
  day_index = day;
  slot = some slot;
  is_custom = false;
  is_main = false;
  date = date;
  name = "";
  opens_at = none;
  closes_at = none;
  needs_arrival = true;
  counts_for_certificate = false;
  is_active = true;
  outside_schedule = false;
}

abbrev pub main_row : ℕ → ℕ → Session
main_row date pk = record (generated 0 0 date pk) {
  is_main = true;
  name = "Check-in";
  needs_arrival = false;
  counts_for_certificate = true;
}

abbrev pub made_main : Session → Session
made_main s = record s { is_main = true }

-- `Hackathon.main_check_in_session`
unfoldable pub main_check_in_session : Schedule → Session × Schedule
main_check_in_session h = elim (first (λ s. s.is_main) h.sessions) [
  | some s ↦ (s, h)
  | none ↦ elim (first (λ s. s.day_index == 0 && is_at s.slot 0) h.sessions) [
    | some s ↦ (made_main s, set_session s.pk made_main h)
    | none ↦ (main_row h.first_day h.next_pk, add_session (main_row h.first_day) h)
  ]
]

abbrev pub refreshed : ℕ → Session → Session
refreshed date s = record s { date = date; outside_schedule = false }

-- One turn of the first loop of `sync`, for the sessions that were there at its start. A generated session
-- always has a slot.
unfoldable pub visit_slot : List Session → ℕ → Option ℕ → Schedule → Schedule
visit_slot existing day none h = h
visit_slot existing day (some slot) h = elim (first (is_at_key day (some slot)) existing) [
  | none ↦ add_session (generated day slot (h.first_day + day)) h
  | some s ↦ set_session s.pk (refreshed (h.first_day + day)) h
]

-- The first `n` slots of a day, and the first `n` days.
unfoldable pub visit_day : List Session → ℕ → ℕ → Schedule → Schedule
visit_day existing day zero h = h
visit_day existing day (suc n) h = visit_slot existing day (some n) (visit_day existing day n h)

unfoldable pub visit_days : List Session → ℕ → ℕ → Schedule → Schedule
visit_days existing slots zero h = h
visit_days existing slots (suc n) h = visit_day existing n slots (visit_days existing slots n h)

abbrev pub is_in_grid : ℕ → ℕ → Session → Bool
is_in_grid days slots s =
    ltb s.day_index days && elim (s.slot) [ none ↦ false | some j ↦ ltb j slots ]

-- `session.check_ins.exists()`
abbrev pub has_check_ins : Schedule → ℕ → Bool
has_check_ins h pk = exists (λ k. k == pk) h.check_ins

-- One turn of the second loop, for a session that is not wanted.
unfoldable pub retire : Session → Schedule → Schedule
retire s h =
    if has_check_ins h s.pk
    then set_session s.pk (λ x. record x { outside_schedule = true }) h
    else record h { sessions = delete (λ x. x.pk == s.pk) h.sessions }

unfoldable pub retire_all : (Session → Bool) → List Session → Schedule → Schedule
retire_all wanted [] h = h
retire_all wanted (s ∷ ss) h = retire_all wanted ss (if wanted s then h else retire s h)

-- `sync`; a main session outside the days and slots is there already, so its turn can come last.
unfoldable pub sync : Schedule → Schedule
sync h =
    let (days, slots) = clamp_schedule h.days h.slots in
    let (main, started) = main_check_in_session h in
    let existing = select (λ s. not s.is_custom) started.sessions in
    let visited = visit_days existing slots days started in
    let filled =
      if is_in_grid days slots main
      then visited
      else visit_slot existing main.day_index main.slot visited in
    retire_all
      (λ s.
        is_in_grid days slots s || (s.day_index == main.day_index && same_slot s.slot main.slot))
      existing filled

-- What `delete` returns.
pub data Outcome : Type 0 where
  retired deleted : Outcome

-- `delete`
unfoldable pub delete_session : Session → Schedule → Result (Outcome × Schedule)
delete_session s h =
    if not s.is_custom
    then err not_custom
    else ok (if has_check_ins h s.pk then retired else deleted, retire s h)

-- `session.window()`
abbrev pub session_window : Schedule → Session → Option ℕ × Option ℕ
session_window h s = if s.is_main then (h.opens_at, h.closes_at) else (s.opens_at, s.closes_at)

pub data WindowState : Type 0 where
  not_open open_now closed : WindowState

abbrev is_past : ℕ → Option ℕ → Bool
is_past at none = false
is_past at (some t) = leb t at

abbrev is_ahead : ℕ → Option ℕ → Bool
is_ahead at none = false
is_ahead at (some t) = ltb at t

-- `window_state`
unfoldable pub window_state : Schedule → Session → ℕ → WindowState
window_state h s at =
    let (opens, closes) = session_window h s in
    if is_ahead at opens then not_open else if is_past at closes then closed else open_now
