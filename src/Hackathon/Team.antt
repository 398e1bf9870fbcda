-- ===== src/Hackathon/Team.antt =====
-- The helpers of apps/hackathons/services.py that every change to a team goes through: who may change
-- it, its status against its size, and admitting a person.
pub mod Status
pub mod Admission
pub mod Leadership
pub mod Slots
pub mod Creation
pub mod Invites
pub mod Members
pub mod Admin
pub mod Problem
pub mod Formation
use srkrcc_main_application.Common.{
  ℕ, ◌+◌, Bool, true, false, not, ◌&&◌, ◌||◌, Option, none, some, List, [], ◌∷◌, ◌==◌, leb, count,
  exists, select, update, append, map, ◌++◌, if◌then◌else◌, Python,
}
use srkrcc_main_application.Hackathon.Model.{
  TeamStatus, forming, registered, disqualified, withdrawn, payment_pending, payment_rejected, User,
  Hackathon, Team, TeamMember, TeamRole, member_role, TeamInvite, invite_cancelled, TeamEmailInvite,
  TeamJoinRequest, join_cancelled, Answer, is_active, is_unpaid, is_out, is_pending_invite,
  is_pending_email, is_pending_join,
}
use srkrcc_main_application.Hackathon.Monad.{
  Db, Result, ok, err, Action, ◌>>=◌, ◌>>◌, pure, raise_if, gets, modify, when, emit, Effect, email,
  celebrate, resolve_notification, team_registered, member_joined, permission_denied,
  registration_closed, team_inactive, team_unpaid, team_edits_locked, profile_incomplete,
  already_in_team, team_full, hackathon_full,
}
use srkrcc_main_application.Hackathon.Store.{
  is_team_organizer, save_team, size, has_team, is_leader, is_registration_open,
}
use srkrcc_main_application.Hackathon.Registration.{
  RegistrationData, check_eligibility, registration_inputs, missing_profile_fields, is_nil,
}
use srkrcc_main_application.Hackathon.Registration.Capacity.{participants_would_exceed}

unfoldable pub require_registration_open : Action (Unit {0})
require_registration_open db =
    raise_if (not (is_registration_open db.now db.hackathon)) registration_closed db

-- Organizers of the teams bypass every guard on edits.
unfoldable pub require_team_editable : Team → User → Action (Unit {0})
require_team_editable team actor db =
    if is_team_organizer db actor
    then pure tt db
    else (do
      raise_if (is_out team.status) team_inactive
      raise_if (is_unpaid team.status) team_unpaid
      raise_if db.hackathon.team_edits_locked team_edits_locked
      require_registration_open)
        db

unfoldable pub require_leader : Team → User → Action (Unit {0})
require_leader team actor db =
    raise_if (not (is_leader team actor || is_team_organizer db actor)) permission_denied db

unfoldable pub require_profile_complete : User → Action (Unit {0})
require_profile_complete user db =
    raise_if (not (is_nil (missing_profile_fields db.hackathon user))) profile_incomplete db

abbrev pub status_code : TeamStatus → ℕ
status_code forming = 0
status_code registered = 1
status_code disqualified = 2
status_code withdrawn = 3
status_code payment_pending = 4
status_code payment_rejected = 5

-- `new_status` of `_recompute_status`
abbrev pub size_status : ℕ → ℕ → TeamStatus
size_status minimum members = if leb minimum members then registered else forming

-- `_recompute_status`: the team as saved, and whether it just became registered. The first argument
-- tells whether the status stays.
unfoldable pub save_status : Bool → Team → TeamStatus → Action (Team × Bool)
save_status true team new = pure (team, false)
save_status false team new = do
  let team' = record team { status = new }
  save_team team'
  let joined = status_code new == 1 && not team.is_waitlisted
  when joined (emit (email team_registered team.pk))
  when joined (emit (celebrate team_registered team.pk))
  pure (team', joined)

unfoldable pub recompute_status : Team → Action (Team × Bool)
recompute_status team db =
    let new = size_status db.hackathon.min_team_size (size team.pk db.members) in
    save_status (not (is_active team.status) || status_code new == status_code team.status) team new
      db

-- `_notify_member_joined`
unfoldable pub notify_member_joined : Team → Bool → Action (Unit {0})
notify_member_joined team newly_registered db =
    (do
      emit (celebrate member_joined team.pk)
      when (not (newly_registered && db.hackathon.team_registered_email))
          (emit (email member_joined team.pk)))
      db

-- `_slots_used`: members and every outstanding invite.
unfoldable pub slots_used : ℕ → Db → ℕ
slots_used team db =
    size team db.members
    + count (λ i. i.team == team && is_pending_invite i.status) db.invites
    + count (λ i. i.team == team && is_pending_email i.status) db.email_invites

-- `TeamMember.objects.create`: the unique constraint on (hackathon, user) raises `IntegrityError`,
-- which the callers turn into ALREADY_IN_TEAM.
unfoldable pub create_member : TeamMember → Action (Unit {0})
create_member member db =
    (do
      raise_if (has_team member.user db.members) already_in_team
      modify (λ s. record s { members = append s.members member }))
      db

-- Every other pending invite of somebody who has a team now is cancelled.
unfoldable pub cancel_invites_of : ℕ → Action (Unit {0})
cancel_invites_of user = modify λ db. record db {
  invites =
      update (λ i. i.invited_user == user && is_pending_invite i.status)
        (λ i. record i { status = invite_cancelled; responded_at = some db.now }) db.invites;
}

-- `finder.withdraw_pending_requests`
unfoldable pub withdraw_pending_requests : ℕ → Action (Unit {0})
withdraw_pending_requests user = modify λ db.
    let mine = λ (r : TeamJoinRequest). r.user == user && is_pending_join r.status in
    record db {
      join_requests =
          update mine (λ r. record r { status = join_cancelled; decided_at = some db.now })
            db.join_requests;
      effects = db.effects ++ map (λ r. resolve_notification r.pk) (select mine db.join_requests);
    }

module _ (py : Python) where
  -- The checks of `_admit` that come before the registration questions.
  unfoldable pub check_admissible : Team → User → Action (Unit {0})
  check_admissible team user db =
      (do
        raise_if (not (is_active team.status)) team_inactive
        raise_if db.hackathon.team_edits_locked team_edits_locked
        require_registration_open
        raise_if (has_team user.pk db.members) already_in_team
        require_profile_complete user
        check_eligibility py db.hackathon user)
        db

  -- The checks of `_admit` on the room that is left.
  unfoldable pub check_room : Team → Action (Unit {0})
  check_room team db =
      (do
        raise_if (leb db.hackathon.max_team_size (size team.pk db.members)) team_full
        raise_if
            (not team.is_waitlisted && participants_would_exceed db.hackathon db.teams db.members 1)
            hackathon_full)
        db

  -- `_admit`: put `user` on `team`, which the caller has locked.
  unfoldable pub admit : Team → User → RegistrationData → Bool → Action (Team × Bool)
  admit team user data' by_organizer db =
      (do
        check_admissible team user
        inputs ← if by_organizer then pure (none, []) else registration_inputs py db.hackathon data'
        check_room team
        create_member (record {
          team = team.pk;
          user = user.pk;
          role = member_role;
          rules_accepted_at = inputs.0;
          answers = inputs.1;
        })
        cancel_invites_of user.pk
        withdraw_pending_requests user.pk
        recompute_status team)
        db
