-- ===== src/Hackathon/Team/Admission.antt =====
-- `_admit` of apps/hackathons/services.py: the rows after a person was put on a team.
use srkrcc_main_application.Common.{
  ℕ, ◌≡◌, ◌≤◌, ap, ◌∙◌, subst, refl, String, Option, Bool, true, false, ◌&&◌, List, [], ◌∷◌, none,
  some, arith, ◌==◌, ◌⊎◌, leb, exists, update, append, if◌then◌else◌, Python,
}
use srkrcc_main_application.Common.Rows.Laws.{count-append}
use srkrcc_main_application.Hackathon.Model.{
  Hackathon, User, Answer, member_role, Team, TeamMember, TeamInvite, invite_cancelled,
  TeamJoinRequest, join_cancelled, is_active, is_pending_invite, is_pending_join,
}
use srkrcc_main_application.Hackathon.Monad.{Db, ok, Action, ◌>>=◌, ◌>>◌, pure}
use srkrcc_main_application.Hackathon.Outcome.{bind_ok}
use srkrcc_main_application.Hackathon.Store.{size, has_team, is_registration_open}
use srkrcc_main_application.Hackathon.Registration.{RegistrationData, registration_inputs}
use srkrcc_main_application.Hackathon.Registration.Reads.{
  check_eligibility_reads, registration_inputs_reads,
}
use srkrcc_main_application.Hackathon.Registration.Capacity.{participants_would_exceed}
use srkrcc_main_application.Hackathon.Team.{
  size_status, require_registration_open, require_profile_complete, check_admissible, check_room,
  create_member, cancel_invites_of, withdraw_pending_requests, save_status, recompute_status, admit,
}

pub no_invites :
    (user now : ℕ) (invites : List TeamInvite)
    → exists
        (λ i. i.invited_user == user && is_pending_invite i.status)
        (update
          (λ i. i.invited_user == user && is_pending_invite i.status)
          (λ i. record i { status = invite_cancelled; responded_at = some now })
          invites)
      ≡ false
no_invites user now [] = refl
no_invites user now (i ∷ is) = ground (arith, no_invites user now is)

no_requests :
    (user now : ℕ) (requests : List TeamJoinRequest)
    → exists
        (λ r. r.user == user && is_pending_join r.status)
        (update
          (λ r. r.user == user && is_pending_join r.status)
          (λ r. record r { status = join_cancelled; decided_at = some now })
          requests)
      ≡ false
no_requests user now [] = refl
no_requests user now (r ∷ rs) = ground (arith, no_requests user now rs)

abbrev new_member : Team → User → Option ℕ × List (String × Answer) → TeamMember
new_member t u inputs = record {
  team = t.pk;
  user = u.pk;
  role = member_role;
  rules_accepted_at = inputs.0;
  answers = inputs.1;
}

-- The rows after `u` was put on `t`.
pub record Admitted (t : Team) (u : User) (db : Db) (t' : Team) (db' : Db) : Type 0 where
  pub open' : is_registration_open db.now db.hackathon ≡ true
  pub active : is_active t.status ≡ true
  pub unlocked : db.hackathon.team_edits_locked ≡ false
  pub free : has_team u.pk db.members ≡ false
  pub joined :
      (m : TeamMember) × (m.team ≡ t.pk) × (m.user ≡ u.pk) × (db'.members ≡ append db.members m)
  pub room : size t.pk db'.members ≤ db.hackathon.max_team_size
  pub places :
      (t.is_waitlisted ≡ true)
      ⊎ (participants_would_exceed db.hackathon db.teams db.members 1 ≡ false)
  pub status :
      t' ≡ record t { status = size_status db.hackathon.min_team_size (size t.pk db'.members) }
  pub invites :
      exists (λ i. i.invited_user == u.pk && is_pending_invite i.status) db'.invites ≡ false

room_left :
    (team limit : ℕ) (ms ms' : List TeamMember) (m : TeamMember)
    → ms' ≡ append ms m
    → m.team ≡ team
    → leb limit (size team ms) ≡ false
    → size team ms' ≤ limit
room_left team limit ms ms' m e k h =
    ground (arith, count-append (λ x. x.team == team) ms m, e, k, h)

module _ (py : Python) where
  check_admissible_ok :
      (t : Team) (u : User) (x : Unit {0}) (db db' : Db)
      → check_admissible py t u db ≡ ok (x, db')
      → (db' ≡ db)
        × (is_active t.status ≡ true)
        × (db.hackathon.team_edits_locked ≡ false)
        × (is_registration_open db.now db.hackathon ≡ true)
        × (has_team u.pk db.members ≡ false)
  unfolding check_admissible require_registration_open require_profile_complete
  check_admissible_ok t u x db db' h =
      ground (arith, check_eligibility_reads py db.hackathon u x db db')

  check_room_ok :
      (t : Team) (x : Unit {0}) (db db' : Db)
      → check_room py t db ≡ ok (x, db')
      → (db' ≡ db)
        × (leb db.hackathon.max_team_size (size t.pk db.members) ≡ false)
        × ((t.is_waitlisted ≡ true)
            ⊎ (participants_would_exceed db.hackathon db.teams db.members 1 ≡ false))
  unfolding check_room
  check_room_ok t x db db' h = ground arith

  -- The part of `_admit` after the last check.
  abbrev seat : Team → User → Option ℕ × List (String × Answer) → Action (Team × Bool)
  seat t u x =
      create_member (new_member t u x)
      >> (cancel_invites_of u.pk >> (withdraw_pending_requests u.pk >> recompute_status t))

  seat_ok :
      (t t' : Team) (u : User) (x : Option ℕ × List (String × Answer)) (j : Bool) (db db' : Db)
      → seat t u x db ≡ ok ((t', j), db')
      → (is_active t.status ≡ true)
      → (db'.members ≡ append db.members (new_member t u x))
        × (t'
            ≡ record t { status = size_status db.hackathon.min_team_size (size t.pk db'.members) })
        × (exists (λ i. i.invited_user == u.pk && is_pending_invite i.status) db'.invites ≡ false)
  unfolding create_member cancel_invites_of withdraw_pending_requests recompute_status save_status
  seat_ok t t' u x j db db' h active = ground (arith, no_invites u.pk db.now db.invites)

  abbrev inputs_for :
      Hackathon → RegistrationData → Bool → Action (Option ℕ × List (String × Answer))
  inputs_for hk d by = if by then pure (none, []) else registration_inputs py hk d

  inputs_for_ok :
      (hk : Hackathon) (d : RegistrationData) (by : Bool) (x : Option ℕ × List (String × Answer))
      (db db' : Db)
      → inputs_for hk d by db ≡ ok (x, db')
      → db' ≡ db
  inputs_for_ok hk d true x db db' h = ground arith
  inputs_for_ok hk d false x db db' h = registration_inputs_reads py hk d x db db' h

  -- Admitting a person to a team succeeds only while registration is open and team edits are
  -- unlocked, for an active team with room and a person without a team. Then the person is a member,
  -- the last one, of a team of at most `max_team_size` members, the participants were within their
  -- limit unless the team queues, the team's status fits its new size, and no invite of theirs is
  -- pending.
  pub admit-Admitted :
      (t t' : Team) (u : User) (d : RegistrationData) (by j : Bool) (db db' : Db)
      → admit py t u d by db ≡ ok ((t', j), db')
      → Admitted t u db t' db'
  unfolding admit
  admit-Admitted t t' u d by j db db' h =
      let after = λ (x : Option ℕ × List (String × Answer)). check_room py t >> seat t u x in
      let (a, db1, p, h1) =
        bind_ok (check_admissible py t u) (λ _. inputs_for db.hackathon d by >>= after) db
          ((t', j), db') h in
      let (x, db2, q, h2) = bind_ok (inputs_for db.hackathon d by) after db1 ((t', j), db') h1 in
      let (b, db3, o, h3) = bind_ok (check_room py t) (λ _. seat t u x) db2 ((t', j), db') h2 in
      let f = check_admissible_ok t u a db db1 p in
      let g = inputs_for_ok db.hackathon d by x db1 db2 q in
      let k = check_room_ok t b db2 db3 o in
      let w = seat_ok t t' u x j db3 db' h3 f.1 in
      let e : db3 ≡ db = k.0 ∙ g ∙ f.0 in
      record {
        open' = f.3;
        active = f.1;
        unlocked = f.2;
        free = f.4;
        joined =
            (new_member t u x, refl, refl, w.0 ∙ ap (λ s. append s.members (new_member t u x)) e);
        room =
            room_left t.pk db.hackathon.max_team_size db.members db'.members (new_member t u x)
              (w.0 ∙ ap (λ s. append s.members (new_member t u x)) e) refl
              (subst (λ s. leb s.hackathon.max_team_size (size t.pk s.members) ≡ false) (g ∙ f.0)
                k.1);
        places =
            subst
              (λ s.
                (t.is_waitlisted ≡ true)
                ⊎ (participants_would_exceed s.hackathon s.teams s.members 1 ≡ false))
              (g ∙ f.0) k.2;
        status =
            w.1
            ∙ ap
                (λ s. record t {
                  status = size_status s.hackathon.min_team_size (size t.pk db'.members);
                })
                e;
        invites = w.2;
      }
