-- ===== src/Hackathon/CheckIn/Retained.antt =====
-- Sessions that people are checked in to.
use srkrcc_main_application.Common.{
  ℕ, zero, suc, ◌+◌, ◌≡◌, refl, sym, ap, subst, ◌∙◌, Bool, true, false, not, ◌&&◌, ◌||◌, Option,
  none, some, List, [], ◌∷◌, ◌==◌, is_at, first, exists, select, delete, arith, if◌then◌else◌,
  Bool-cases, Option-cases, inl, inr, ==→eq,
}
use srkrcc_main_application.Common.Rows.Laws.{exists-append, exists-update}
use srkrcc_main_application.Hackathon.Monad.{Result, ok, err}
use srkrcc_main_application.Hackathon.CheckIn.{
  Session, Schedule, set_session, add_session, main_check_in_session, visit_slot, visit_day,
  visit_days, is_at_key, is_in_grid, same_slot, has_check_ins, retire, retire_all, sync,
  delete_session, clamp_schedule, generated, refreshed, made_main, main_row, Outcome,
}

-- Whether there is a session with that primary key.
abbrev pub is_there : Schedule → ℕ → Bool
is_there h pk = exists (λ s. s.pk == pk) h.sessions

-- Every session with check-ins is still there, and so are the check-ins.
pub record Retains (h h' : Schedule) : Type 0 where
  pub same_check_ins : h'.check_ins ≡ h.check_ins
  pub still_there : (k : ℕ) → has_check_ins h k ≡ true → is_there h k ≡ true → is_there h' k ≡ true

Retains-refl : (h : Schedule) → Retains h h
Retains-refl h = record { same_check_ins = refl; still_there = λ k c t. t }

Retains-trans : (a b c : Schedule) → Retains a b → Retains b c → Retains a c
Retains-trans a b c x y = record {
  same_check_ins = y.same_check_ins ∙ x.same_check_ins;
  still_there = λ k i t. y.still_there k (rw x.same_check_ins i) (x.still_there k i t);
}

Retains-set :
    (pk : ℕ) (f : Session → Session) (h : Schedule)
    → ((s : Session) → (f s).pk ≡ s.pk)
    → Retains h (set_session pk f h)
Retains-set pk f h same = record {
  same_check_ins = refl;
  still_there = λ k c t.
      exists-update (λ s. s.pk == k) (λ s. s.pk == pk) f (λ s. ap (λ n. n == k) (same s)) h.sessions
      ∙ t;
}

Retains-add : (make : ℕ → Session) (h : Schedule) → Retains h (add_session make h)
Retains-add make h = record {
  same_check_ins = refl;
  still_there =
      λ k c t. exists-append (λ s. s.pk == k) h.sessions (make h.next_pk) ∙ ground (arith, t);
}

exists-delete_other :
    (j k : ℕ) (ss : List Session)
    → (j == k) ≡ false
    → exists (λ s. s.pk == k) (delete (λ s. s.pk == j) ss) ≡ exists (λ s. s.pk == k) ss
exists-delete_other j k [] h = refl
exists-delete_other j k (s ∷ ss) h = ground (arith, exists-delete_other j k ss h)

Retains-retire : (s : Session) (h : Schedule) → Retains h (retire s h)
unfolding retire
Retains-retire s h = elim (Bool-cases (has_check_ins h s.pk)) [
  | inl e ↦ rw e (Retains-set s.pk (λ x. record x { outside_schedule = true }) h (λ x. refl))
  | inr e ↦ rw e (record {
    same_check_ins = refl;
    still_there = λ k c t. elim (Bool-cases (s.pk == k)) [
      | inl y ↦ absurd (ground (arith, rw (==→eq s.pk k y) at e, c))
      | inr n ↦ exists-delete_other s.pk k h.sessions n ∙ t
    ];
  })
]

Retains-retire_all :
    (wanted : Session → Bool) (ss : List Session) (h : Schedule)
    → Retains h (retire_all wanted ss h)
unfolding retire_all
Retains-retire_all wanted [] h = Retains-refl h
Retains-retire_all wanted (s ∷ ss) h = elim (Bool-cases (wanted s)) [
  | inl e ↦ rw e (Retains-retire_all wanted ss h)
  | inr e ↦ rw e (
      Retains-trans h (retire s h) (retire_all wanted ss (retire s h)) (Retains-retire s h)
        (Retains-retire_all wanted ss (retire s h)))
]

Retains-visit_slot :
    (ss : List Session) (day : ℕ) (slot : Option ℕ) (h : Schedule)
    → Retains h (visit_slot ss day slot h)
unfolding visit_slot
Retains-visit_slot ss day none h = Retains-refl h
Retains-visit_slot ss day (some slot) h =
    elim (Option-cases (first (is_at_key day (some slot)) ss)) [
      | inl n ↦
          let made : visit_slot ss day (some slot) h
              ≡ add_session (generated day slot (h.first_day + day)) h =
            ground (arith, n) in
          subst (Retains h) (sym made) (Retains-add (generated day slot (h.first_day + day)) h)
      | inr (s, n) ↦
          let made : visit_slot ss day (some slot) h
              ≡ set_session s.pk (refreshed (h.first_day + day)) h =
            ground (arith, n) in
          subst (Retains h) (sym made)
            (Retains-set s.pk (refreshed (h.first_day + day)) h (λ x. refl))
    ]

Retains-visit_day :
    (ss : List Session) (day n : ℕ) (h : Schedule) → Retains h (visit_day ss day n h)
unfolding visit_day
Retains-visit_day ss day zero h = Retains-refl h
Retains-visit_day ss day (suc n) h =
    let before = visit_day ss day n h in
    Retains-trans h before (visit_slot ss day (some n) before) (Retains-visit_day ss day n h)
      (Retains-visit_slot ss day (some n) before)

Retains-visit_days :
    (ss : List Session) (slots n : ℕ) (h : Schedule) → Retains h (visit_days ss slots n h)
unfolding visit_days
Retains-visit_days ss slots zero h = Retains-refl h
Retains-visit_days ss slots (suc n) h =
    let before = visit_days ss slots n h in
    Retains-trans h before (visit_day ss n slots before) (Retains-visit_days ss slots n h)
      (Retains-visit_day ss n slots before)

Retains-main : (h : Schedule) → Retains h (main_check_in_session h).1
unfolding main_check_in_session
Retains-main h = elim (Option-cases (first (λ s. s.is_main) h.sessions)) [
  | inr (s, n) ↦
      let made : (main_check_in_session h).1 ≡ h = ground (arith, n) in
      subst (Retains h) (sym made) (Retains-refl h)
  | inl n ↦ elim (Option-cases (first (λ s. s.day_index == 0 && is_at s.slot 0) h.sessions)) [
    | inr (s, k) ↦
        let made : (main_check_in_session h).1 ≡ set_session s.pk made_main h =
          ground (arith, n, k) in
        subst (Retains h) (sym made) (Retains-set s.pk made_main h (λ x. refl))
    | inl k ↦
        let made : (main_check_in_session h).1 ≡ add_session (main_row h.first_day) h =
          ground (arith, n, k) in
        subst (Retains h) (sym made) (Retains-add (main_row h.first_day) h)
  ]
]

-- Matching the sessions with the days and slots of the hackathon keeps the check-ins, and every session
-- that people are checked in to.
pub Retains-sync : (h : Schedule) → Retains h (sync h)
unfolding sync
Retains-sync h =
    let (days, slots) = clamp_schedule h.days h.slots in
    let main = (main_check_in_session h).0 in
    let started = (main_check_in_session h).1 in
    let existing = select (λ s. not s.is_custom) started.sessions in
    let visited = visit_days existing slots days started in
    let filled =
      if is_in_grid days slots main
      then visited
      else visit_slot existing main.day_index main.slot visited in
    let wanted : Session → Bool = λ s.
      is_in_grid days slots s || (s.day_index == main.day_index && same_slot s.slot main.slot) in
    let last : Retains visited filled = elim (Bool-cases (is_in_grid days slots main)) [
      | inl e ↦ rw e (Retains-refl visited)
      | inr e ↦ rw e (Retains-visit_slot existing main.day_index main.slot visited)
    ] in
    Retains-trans h started (retire_all wanted existing filled) (Retains-main h) (
      Retains-trans started visited (retire_all wanted existing filled)
        (Retains-visit_days existing slots days started)
        (Retains-trans visited filled (retire_all wanted existing filled) last
          (Retains-retire_all wanted existing filled)))

-- What organizers do to the sessions.
pub data SessionRequest : Type 0 where
  match_schedule : Option ℕ → Option ℕ → SessionRequest
  remove_session : ℕ → SessionRequest

abbrev after : Result (Outcome × Schedule) → Schedule → Schedule
after (ok (a, h')) h = h'
after (err e) h = h

-- New numbers of days and slots are matched at once; a session is found by its primary key.
unfoldable pub handle_session : SessionRequest → Schedule → Schedule
handle_session (match_schedule days slots) h = sync (record h { days = days; slots = slots })
handle_session (remove_session pk) h = elim (first (λ s. s.pk == pk) h.sessions) [
  | none ↦ h
  | some s ↦ after (delete_session s h) h
]

unfoldable pub handle_sessions : List SessionRequest → Schedule → Schedule
handle_sessions [] h = h
handle_sessions (r ∷ rs) h = handle_sessions rs (handle_session r h)

Retains-delete : (s : Session) (h : Schedule) → Retains h (after (delete_session s h) h)
unfolding delete_session retire
Retains-delete s h = elim (Bool-cases (s.is_custom)) [
  | inl e ↦ rw e (Retains-retire s h)
  | inr e ↦ rw e (Retains-refl h)
]

Retains-handle_session : (r : SessionRequest) (h : Schedule) → Retains h (handle_session r h)
unfolding handle_session
Retains-handle_session (match_schedule days slots) h =
    let x = Retains-sync (record h { days = days; slots = slots }) in
    record { same_check_ins = x.same_check_ins; still_there = x.still_there }
Retains-handle_session (remove_session pk) h =
    elim (Option-cases (first (λ s. s.pk == pk) h.sessions)) [
      | inl n ↦
          let same : handle_session (remove_session pk) h ≡ h = ground (arith, n) in
          subst (Retains h) (sym same) (Retains-refl h)
      | inr (s, n) ↦
          let same : handle_session (remove_session pk) h ≡ after (delete_session s h) h =
            ground (arith, n) in
          subst (Retains h) (sym same) (Retains-delete s h)
    ]

-- A session that people are checked in to is never taken away, whatever days and slots are set and whichever
-- sessions an organizer removes.
pub handle_sessions_keep :
    (rs : List SessionRequest) (h : Schedule) (pk : ℕ)
    → has_check_ins h pk ≡ true
    → is_there h pk ≡ true
    → is_there (handle_sessions rs h) pk ≡ true
unfolding handle_sessions
handle_sessions_keep [] h pk c t = t
handle_sessions_keep (r ∷ rs) h pk c t =
    let x = Retains-handle_session r h in
    handle_sessions_keep rs (handle_session r h) pk (rw x.same_check_ins c) (x.still_there pk c t)
