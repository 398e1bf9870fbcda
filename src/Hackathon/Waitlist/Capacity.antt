-- ===== src/Hackathon/Waitlist/Capacity.antt =====
-- The limits on teams and participants under `WaitlistService.promote` of apps/hackathons/services.py.
use srkrcc_main_application.Common.{
  ℕ, ◌+◌, ◌≤◌, ◌≡◌, refl, true, false, not, ◌&&◌, List, [], ◌∷◌, arith, ◌==◌, exists, update,
  Bool-cases, inl, inr, ◌⊎◌,
}
use srkrcc_main_application.Common.Rows.Laws.{Distinct, count-update_le, Distinct-update}
use srkrcc_main_application.Hackathon.Model.{Team, TeamMember}
use srkrcc_main_application.Hackathon.Monad.{Db}
use srkrcc_main_application.Hackathon.Store.{size}
use srkrcc_main_application.Hackathon.Registration.Capacity.{
  is_placed, placed_teams, in_placed, placed_participants, limit_of, teams_full,
  participants_would_exceed,
}
use srkrcc_main_application.Hackathon.Waitlist.{place, promote_from, promote_waitlist, waitlist}

-- The teams and the people that hold a place are within the limits that are set.
pub record IsWithin (db : Db) : Type 0 where
  pub keys : Distinct (λ t. t.pk) db.teams
  pub teams :
      (limit_of db.hackathon.max_teams ≡ 0)
      ⊎ (placed_teams db.teams ≤ limit_of db.hackathon.max_teams)
  pub participants :
      (limit_of db.hackathon.max_participants ≡ 0)
      ⊎ (placed_participants db.teams db.members ≤ limit_of db.hackathon.max_participants)

abbrev pub unqueued : ℕ → List Team → List Team
unqueued team teams = update (λ t. t.pk == team) (λ t. record t { is_waitlisted = false }) teams

in_placed-unqueued :
    (team : ℕ) (m : TeamMember) (teams : List Team)
    → in_placed (unqueued team teams) m ≡ true
    → (in_placed teams m ≡ true) ⊎ (m.team ≡ team)
in_placed-unqueued team m [] h = absurd (cc)
in_placed-unqueued team m (t ∷ ts) h = ground (arith, in_placed-unqueued team m ts)

-- Placing a team adds at most its own members to the participants.
placed_participants-unqueued :
    (team : ℕ) (teams : List Team) (members : List TeamMember)
    → placed_participants (unqueued team teams) members
      ≤ placed_participants teams members + size team members
unfolding placed_participants
placed_participants-unqueued team teams [] = omega arith
placed_participants-unqueued team teams (m ∷ ms) =
    ground (arith, in_placed-unqueued team m teams, placed_participants-unqueued team teams ms)

place-IsWithin :
    (t : Team) (db : Db)
    → IsWithin db
    → teams_full db.hackathon db.teams ≡ false
    → participants_would_exceed db.hackathon db.teams db.members (size t.pk db.members) ≡ false
    → IsWithin (place t db)
unfolding place teams_full participants_would_exceed placed_teams
place-IsWithin t db w f e = record {
  keys = Distinct-update (λ (x : Team). x.pk) (λ x. x.pk == t.pk) _ db.teams (λ x. refl) w.keys;
  teams = ground (
    arith,
    count-update_le (λ (x : Team). x.pk) is_placed (λ x. record x { is_waitlisted = false }) t.pk
        db.teams w.keys,
  );
  participants = ground (arith, placed_participants-unqueued t.pk db.teams db.members);
}

promote_from-IsWithin :
    (queue : List Team) (db : Db) → IsWithin db → IsWithin (promote_from queue db)
unfolding promote_from
promote_from-IsWithin [] db w = w
promote_from-IsWithin (t ∷ queue) db w = elim (Bool-cases (teams_full db.hackathon db.teams)) [
  | inl full ↦ rw full w
  | inr free ↦
      rw free
        (elim (Bool-cases
          (participants_would_exceed db.hackathon db.teams db.members (size t.pk db.members))) [
            | inl over ↦ rw over (promote_from-IsWithin queue db w)
            | inr fits ↦
                rw fits (promote_from-IsWithin queue (place t db) (place-IsWithin t db w free fits))
          ])
]

-- While the teams that hold a place are at most `max_teams`, and their members at most
-- `max_participants`, where those limits are set, promoting the waitlist keeps both bounds.
pub promote_waitlist-IsWithin : (db : Db) → IsWithin db → IsWithin (promote_waitlist db)
unfolding promote_waitlist
promote_waitlist-IsWithin db w =
    elim (Bool-cases
      (not db.hackathon.waitlist_enabled && not (exists (λ t. t.is_waitlisted) db.teams))) [
        | inl off ↦ rw off w
        | inr on ↦ rw on (promote_from-IsWithin (waitlist db) db w)
      ]
