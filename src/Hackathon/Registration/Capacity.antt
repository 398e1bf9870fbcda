-- ===== src/Hackathon/Registration/Capacity.antt =====
-- The capacity checks of registration.py. A limit of `None` or 0 is no limit.
use srkrcc_main_application.Common.{
  ℕ, ◌+◌, Bool, not, ◌&&◌, ◌||◌, Option, none, some, List, ◌==◌, leb, ltb, count, exists,
  if◌then◌else◌,
}
use srkrcc_main_application.Hackathon.Model.{Hackathon, Team, TeamMember, is_active}
use srkrcc_main_application.Hackathon.Monad.{Action, pure, raise, hackathon_full}

-- A team that holds a place: active and not on the waitlist.
abbrev pub is_placed : Team → Bool
is_placed t = is_active t.status && not t.is_waitlisted

unfoldable pub placed_teams : List Team → ℕ
placed_teams teams = count is_placed teams

-- `team__status__in=ACTIVE_TEAM_STATUSES, team__is_waitlisted=False`, for the team of a membership
abbrev pub in_placed : List Team → TeamMember → Bool
in_placed teams m = exists (λ t. t.pk == m.team && is_placed t) teams

unfoldable pub placed_participants : List Team → List TeamMember → ℕ
placed_participants teams members = count (in_placed teams) members

abbrev pub limit_of : Option ℕ → ℕ
limit_of none = 0
limit_of (some n) = n

unfoldable pub teams_full : Hackathon → List Team → Bool
teams_full h teams =
    not (limit_of h.max_teams == 0) && leb (limit_of h.max_teams) (placed_teams teams)

unfoldable pub participants_would_exceed : Hackathon → List Team → List TeamMember → ℕ → Bool
participants_would_exceed h teams members extra =
    not (limit_of h.max_participants == 0)
    && ltb (limit_of h.max_participants) (placed_participants teams members + extra)

-- Whether a new team must queue; it is refused when it may not even queue.
unfoldable pub should_waitlist_new_team : Action Bool
should_waitlist_new_team db =
    let h = db.hackathon in
    if teams_full h db.teams || participants_would_exceed h db.teams db.members 1
    then if h.waitlist_enabled then pure Bool.true db else raise hackathon_full db
    else pure Bool.false db
