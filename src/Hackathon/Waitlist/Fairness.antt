-- ===== src/Hackathon/Waitlist/Fairness.antt =====
-- Who of the queue is served, in `WaitlistService` of apps/hackathons/services.py.
use srkrcc_main_application.Common.{
  ℕ, ◌≤◌, ◌≡◌, refl, Bool, true, false, not, ◌&&◌, List, [], ◌∷◌, arith, ◌==◌, exists, select,
  Bool-cases, inl, inr, ◌⊎◌, ◌∙◌, subst, sym, ap,
}
use srkrcc_main_application.Common.Rows.Laws.{All}
use srkrcc_main_application.Hackathon.Model.{Team, TeamMember}
use srkrcc_main_application.Hackathon.Monad.{Db}
use srkrcc_main_application.Hackathon.Store.{size}
use srkrcc_main_application.Hackathon.Registration.Capacity.{
  in_placed, placed_participants, teams_full, participants_would_exceed,
}
use srkrcc_main_application.Hackathon.Waitlist.{
  is_queued, sort_teams, waitlist, place, promote_from, promote_waitlist,
}
use srkrcc_main_application.Hackathon.Waitlist.Capacity.{unqueued}

-- Still on the waitlist.
abbrev pub is_waiting : ℕ → List Team → Bool
is_waiting team teams = exists (λ t. t.pk == team && t.is_waitlisted) teams

is_waiting-unqueued :
    (team other : ℕ) (teams : List Team)
    → is_waiting team teams ≡ false
    → is_waiting team (unqueued other teams) ≡ false
is_waiting-unqueued team other [] h = refl
is_waiting-unqueued team other (t ∷ ts) h = ground (arith, is_waiting-unqueued team other ts)

is_waiting-unqueued_self :
    (team : ℕ) (teams : List Team) → is_waiting team (unqueued team teams) ≡ false
is_waiting-unqueued_self team [] = refl
is_waiting-unqueued_self team (t ∷ ts) = ground (arith, is_waiting-unqueued_self team ts)

in_placed_mono :
    (team : ℕ) (m : TeamMember) (teams : List Team)
    → in_placed teams m ≡ true
    → in_placed (unqueued team teams) m ≡ true
in_placed_mono team m [] h = h
in_placed_mono team m (t ∷ ts) h = ground (arith, in_placed_mono team m ts)

placed_participants_mono :
    (team : ℕ) (teams : List Team) (members : List TeamMember)
    → placed_participants teams members ≤ placed_participants (unqueued team teams) members
unfolding placed_participants
placed_participants_mono team teams [] = omega arith
placed_participants_mono team teams (m ∷ ms) =
    ground (arith, in_placed_mono team m teams, placed_participants_mono team teams ms)

pub place-served : (t : Team) (db : Db) → is_waiting t.pk (place t db).teams ≡ false
unfolding place
place-served t db = is_waiting-unqueued_self t.pk db.teams

-- What stays true while the queue is served.
pub record Grows (db db' : Db) : Type 0 where
  hackathon : db'.hackathon ≡ db.hackathon
  members : db'.members ≡ db.members
  participants : placed_participants db.teams db.members ≤ placed_participants db'.teams db'.members
  pub served : (team : ℕ) → is_waiting team db.teams ≡ false → is_waiting team db'.teams ≡ false

pub place-Grows : (t : Team) (db : Db) → Grows db (place t db)
unfolding place
place-Grows t db = record {
  hackathon = refl;
  members = refl;
  participants = placed_participants_mono t.pk db.teams db.members;
  served = λ team h. is_waiting-unqueued team t.pk db.teams h;
}

Grows-trans : (a b c : Db) → Grows a b → Grows b c → Grows a c
Grows-trans a b c g h = record {
  hackathon = h.hackathon ∙ g.hackathon;
  members = h.members ∙ g.members;
  participants = omega (arith, g.participants, h.participants);
  served = λ team w. h.served team (g.served team w);
}

pub promote_from-Grows : (queue : List Team) (db : Db) → Grows db (promote_from queue db)
unfolding promote_from
promote_from-Grows [] db = record {
  hackathon = refl;
  members = refl;
  participants = omega arith;
  served = λ team h. h;
}
promote_from-Grows (t ∷ queue) db = elim (Bool-cases (teams_full db.hackathon db.teams)) [
  | inl full ↦ rw full (record {
    hackathon = refl;
    members = refl;
    participants = omega arith;
    served = λ team h. h;
  })
  | inr free ↦
      rw free
        (elim (Bool-cases
          (participants_would_exceed db.hackathon db.teams db.members (size t.pk db.members))) [
            | inl over ↦ rw over (promote_from-Grows queue db)
            | inr fits ↦ rw fits (
                Grows-trans db (place t db) _ (place-Grows t db)
                  (promote_from-Grows queue (place t db)))
          ])
]

-- A team of the queue got its place, or none is left for it.
abbrev pub IsServed : Db → Team → Type 0
IsServed db t =
    (is_waiting t.pk db.teams ≡ false)
    ⊎ (teams_full db.hackathon db.teams ≡ true)
    ⊎ (participants_would_exceed db.hackathon db.teams db.members (size t.pk db.members) ≡ true)

pub would_exceed-Grows :
    (n : ℕ) (db db' : Db)
    → Grows db db'
    → participants_would_exceed db.hackathon db.teams db.members n ≡ true
    → participants_would_exceed db'.hackathon db'.teams db'.members n ≡ true
unfolding participants_would_exceed
would_exceed-Grows n db db' g h = rw g.hackathon (ground (arith, g.participants))

full_serves :
    (db : Db) (ts : List Team) → teams_full db.hackathon db.teams ≡ true → All (IsServed db) ts
full_serves db [] h = tt
full_serves db (t ∷ ts) h = (inr (inl h), full_serves db ts h)

left_out :
    (t : Team) (queue : List Team) (db : Db)
    → participants_would_exceed db.hackathon db.teams db.members (size t.pk db.members) ≡ true
    → (let db' = promote_from queue db in
        participants_would_exceed db'.hackathon db'.teams db'.members (size t.pk db'.members))
      ≡ true
left_out t queue db over =
    ap
      (λ ms.
        participants_would_exceed (promote_from queue db).hackathon (promote_from queue db).teams
          (promote_from queue db).members (size t.pk ms))
      (promote_from-Grows queue db).members
    ∙ would_exceed-Grows (size t.pk db.members) db (promote_from queue db)
        (promote_from-Grows queue db) over

pub promote_from-full :
    (t : Team) (queue : List Team) (db : Db)
    → teams_full db.hackathon db.teams ≡ true
    → promote_from (t ∷ queue) db ≡ db
unfolding promote_from
promote_from-full t queue db full = rw full refl

pub promote_from-over :
    (t : Team) (queue : List Team) (db : Db)
    → teams_full db.hackathon db.teams ≡ false
    → participants_would_exceed db.hackathon db.teams db.members (size t.pk db.members) ≡ true
    → promote_from (t ∷ queue) db ≡ promote_from queue db
unfolding promote_from
promote_from-over t queue db free over = rw free (rw over refl)

pub promote_from-fits :
    (t : Team) (queue : List Team) (db : Db)
    → teams_full db.hackathon db.teams ≡ false
    → participants_would_exceed db.hackathon db.teams db.members (size t.pk db.members) ≡ false
    → promote_from (t ∷ queue) db ≡ promote_from queue (place t db)
unfolding promote_from
promote_from-fits t queue db free fits = rw free (rw fits refl)

serve : (ts : List Team) (db db' : Db) → db ≡ db' → All (IsServed db') ts → All (IsServed db) ts
serve ts db db' e h = subst (λ d. All (IsServed d) ts) (sym e) h

promote_from-IsServed : (queue : List Team) (db : Db) → All (IsServed (promote_from queue db)) queue
promote_from-IsServed [] db = tt
promote_from-IsServed (t ∷ queue) db = elim (Bool-cases (teams_full db.hackathon db.teams)) [
  | inl full ↦
      serve (t ∷ queue) _ db (promote_from-full t queue db full)
        (inr (inl full), full_serves db queue full)
  | inr free ↦
      elim (Bool-cases
        (participants_would_exceed db.hackathon db.teams db.members (size t.pk db.members))) [
          | inl over ↦
              serve (t ∷ queue) _ (promote_from queue db) (promote_from-over t queue db free over)
                (inr (inr (left_out t queue db over)), promote_from-IsServed queue db)
          | inr fits ↦
              serve (t ∷ queue) _ (promote_from queue (place t db))
                (promote_from-fits t queue db free fits)
                (
                  inl ((promote_from-Grows queue (place t db)).served t.pk (place-served t db)),
                  promote_from-IsServed queue (place t db),
                )
        ]
]

nobody_waits :
    (teams : List Team) → exists (λ t. t.is_waitlisted) teams ≡ false → select is_queued teams ≡ []
nobody_waits [] h = refl
nobody_waits (t ∷ ts) h = ground (arith, nobody_waits ts)

waitlist-empty : (db : Db) → exists (λ t. t.is_waitlisted) db.teams ≡ false → waitlist db ≡ []
unfolding waitlist sort_teams
waitlist-empty db h = rw (nobody_waits db.teams h) refl

-- After promoting the waitlist every active team that queued has left it, unless all team places are
-- taken or its own members no longer fit among the participants: nobody waits in front of a free
-- place.
pub promote_waitlist-IsServed : (db : Db) → All (IsServed (promote_waitlist db)) (waitlist db)
unfolding promote_waitlist
promote_waitlist-IsServed db =
    elim (Bool-cases
      (not db.hackathon.waitlist_enabled && not (exists (λ t. t.is_waitlisted) db.teams))) [
        | inl off ↦ subst (All _) (sym (waitlist-empty db (ground arith))) tt
        | inr on ↦
            serve (waitlist db) (promote_waitlist db) (promote_from (waitlist db) db) (rw on refl)
              (promote_from-IsServed (waitlist db) db)
      ]
