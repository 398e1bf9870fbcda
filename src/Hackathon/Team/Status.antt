-- ===== src/Hackathon/Team/Status.antt =====
-- `_recompute_status` of apps/hackathons/services.py: a team's status and its size.
use srkrcc_main_application.Common.{
  ℕ, ◌≡◌, refl, ap, List, [], ◌∷◌, ◌++◌, append, Bool, false, not, ◌&&◌, arith, ◌==◌, ◌⊎◌, leb,
  update, if◌then◌else◌,
}
use srkrcc_main_application.Hackathon.Model.{Team, TeamStatus, is_active, is_forming}
use srkrcc_main_application.Hackathon.Monad.{Db, ok, Effect, email, celebrate, team_registered}
use srkrcc_main_application.Hackathon.Outcome.{Returns}
use srkrcc_main_application.Hackathon.Store.{size}
use srkrcc_main_application.Hackathon.Team.{size_status, save_status, recompute_status}

-- The status of a team of `members` members after `_recompute_status`.
abbrev pub next_status : ℕ → ℕ → TeamStatus → TeamStatus
next_status minimum members status =
    if is_active status then size_status minimum members else status

abbrev pub recomputed : Team → Db → Team
recomputed t db = record t {
  status = next_status db.hackathon.min_team_size (size t.pk db.members) t.status;
}

append_two : (es : List Effect) (a b : Effect) → append (append es a) b ≡ es ++ (a ∷ b ∷ [])
append_two [] a b = refl
append_two (e ∷ es) a b = ap (λ xs. e ∷ xs) (append_two es a b)

-- What `_recompute_status` leaves: at most the status of the one team changes.
pub record Recomputed (t : Team) (db : Db) (r : Team) (db' : Db) : Type 0 where
  pub team : r ≡ recomputed t db
  pub rows :
      ((r ≡ t) × (db'.teams ≡ db.teams))
      ⊎ (db'.teams ≡ update (λ x. x.pk == t.pk) (λ _. r) db.teams)
  pub members : db'.members ≡ db.members
  pub payments : db'.payments ≡ db.payments
  pub invites : db'.invites ≡ db.invites
  pub hackathon : db'.hackathon ≡ db.hackathon
  pub others : db' ≡ record db { teams = db'.teams; effects = db'.effects }

pub recompute_status_ok :
    (t r : Team) (joined : Bool) (db db' : Db)
    → recompute_status t db ≡ ok ((r, joined), db')
    → Recomputed t db r db'
unfolding recompute_status save_status
recompute_status_ok t r joined db db' h = ground arith

-- Whether a team becomes registered that does not queue.
abbrev pub has_joined : Team → Db → Bool
has_joined t db =
    is_forming t.status
    && leb db.hackathon.min_team_size (size t.pk db.members)
    && not t.is_waitlisted

-- The email and the celebration of a team that became registered.
abbrev pub announcements : Team → List Effect
announcements t = email team_registered t.pk ∷ celebrate team_registered t.pk ∷ []

-- Recomputing a team's status always succeeds. An active team is then registered exactly when it has
-- the minimum number of members, any other keeps its status, and nothing else of the rows changes. The
-- team is announced, once by email and once by a celebration, exactly when it was forming, is
-- registered now and does not queue; nothing else is sent. The result tells whether it was announced.
pub recompute_status_lem :
    (t : Team) (db : Db)
    → Returns
        (λ r db'.
          Recomputed t db r.0 db'
          × (r.1 ≡ has_joined t db)
          × (db'.effects ≡ (if has_joined t db then db.effects ++ announcements t else db.effects)))
        (recompute_status t db)
unfolding recompute_status save_status
recompute_status_lem t db =
    ground
      (arith, append_two db.effects (email team_registered t.pk) (celebrate team_registered t.pk))

-- A second recomputation, the members unchanged, finds nothing to do.
pub recompute_status_idem :
    (t r : Team) (joined : Bool) (db db' : Db)
    → recompute_status t db ≡ ok ((r, joined), db')
    → recompute_status r db' ≡ ok ((r, false), db')
unfolding recompute_status save_status
recompute_status_idem t r joined db db' h = ground arith
