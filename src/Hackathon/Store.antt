-- ===== src/Hackathon/Store.antt =====
-- Queries that the services of apps/hackathons share: permissions (access.py), locks, saves and
-- counts.
use srkrcc_main_application.Common.{
  ℕ, Bool, true, false, not, ◌&&◌, ◌||◌, Option, none, some, List, [], ◌∷◌, ◌==◌, leb, ltb, is_at,
  count, exists, first, update,
}
use srkrcc_main_application.Hackathon.Model.{
  StaffRole, organizer, judge, volunteer, Permission, settings, content, teams, rounds, ideas,
  submissions, judging, judge_projects, results, check_in, insights, staff, User, Staff, Hackathon,
  Team, TeamMember, is_live,
}
use srkrcc_main_application.Hackathon.Monad.{does_not_exist, Db, Action, modify, or_raise}

-- `access.ROLE_PRESETS`
abbrev pub preset_permissions : StaffRole → List Permission
preset_permissions organizer =
    settings ∷ content ∷ teams ∷ rounds ∷ ideas ∷ submissions ∷ judging ∷ results ∷ check_in
    ∷ insights ∷ []
preset_permissions judge = judge_projects ∷ []
preset_permissions volunteer = check_in ∷ []

abbrev pub is_teams : Permission → Bool
is_teams teams = true
is_teams settings = false
is_teams content = false
is_teams rounds = false
is_teams ideas = false
is_teams submissions = false
is_teams judging = false
is_teams judge_projects = false
is_teams results = false
is_teams check_in = false
is_teams insights = false
is_teams staff = false

-- `row.permissions or preset_permissions(row.role)`
abbrev pub granted : Staff → List Permission
granted row = elim (row.permissions) [ [] ↦ preset_permissions row.role | p ∷ ps ↦ p ∷ ps ]

-- `access.has_permission(hackathon, user, 'teams')`
unfoldable pub is_team_organizer : Db → User → Bool
is_team_organizer db user =
    user.site_organizer
    || exists (λ row. row.user == user.pk && exists is_teams (granted row)) db.staff

-- `_lock_team`
abbrev pub lock_team : ℕ → Action Team
lock_team pk db = or_raise (first (λ t. t.pk == pk) db.teams) does_not_exist db

-- `team.save()`
abbrev pub save_team : Team → Action (Unit {0})
save_team team =
    modify λ db. record db { teams = update (λ t. t.pk == team.pk) (λ _. team) db.teams }

-- `team.memberships.count()`
abbrev pub size : ℕ → List TeamMember → ℕ
size team members = count (λ m. m.team == team) members

-- `TeamMember.objects.filter(hackathon=hackathon, user=user).exists()`
abbrev pub has_team : ℕ → List TeamMember → Bool
has_team user members = exists (λ m. m.user == user) members

-- `services.is_leader`
abbrev pub is_leader : Team → User → Bool
is_leader team user = is_at team.leader user.pk

-- `at is not None and now < at`
abbrev pub before : ℕ → Option ℕ → Bool
before now none = false
before now (some at) = ltb now at

-- `at is not None and at <= now`
abbrev pub reached : ℕ → Option ℕ → Bool
reached now none = false
reached now (some at) = leb at now

-- `Hackathon.is_registration_open`
unfoldable pub is_registration_open : ℕ → Hackathon → Bool
is_registration_open now h =
    is_live h.status
    && not (before now h.registration_opens_at)
    && not (reached now h.registration_closes_at)
