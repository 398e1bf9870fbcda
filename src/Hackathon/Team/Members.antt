-- ===== src/Hackathon/Team/Members.antt =====
-- `TeamService` of apps/hackathons/services.py: removing a member, leaving and handing over a team.
use srkrcc_main_application.Common.{
  ℕ, String, Bool, true, false, not, ◌&&◌, Option, none, some, List, [], ◌∷◌, ◌==◌, is_at, exists,
  first, update, delete, if◌then◌else◌, Python,
}
use srkrcc_main_application.Hackathon.Model.{
  leader_role, member_role, User, Team, TeamMember, is_active,
}
use srkrcc_main_application.Hackathon.Monad.{
  Action, ◌>>=◌, ◌>>◌, pure, raise_if, modify, or_raise, emit, audit, email, notify, promote,
  member_left, member_removed, removed_member, left_team, transferred_leadership, team_inactive,
  not_a_member, cannot_remove_leader, leader_must_transfer,
}
use srkrcc_main_application.Hackathon.Store.{is_team_organizer, lock_team, save_team}
use srkrcc_main_application.Hackathon.Team.{require_leader, require_team_editable, recompute_status}
use srkrcc_main_application.Hackathon.Withdrawals.{withdraw}

-- `team.memberships.filter(user_id=user)`
abbrev pub is_membership : ℕ → ℕ → TeamMember → Bool
is_membership team user m = m.team == team && m.user == user

unfoldable pub delete_member : ℕ → ℕ → Action (Unit {0})
delete_member team user =
    modify λ db. record db { members = delete (is_membership team user) db.members }

unfoldable pub remove_member : ℕ → User → ℕ → Action Team
remove_member team_pk actor user db =
    (do
      team ← lock_team team_pk
      require_leader team actor
      require_team_editable team actor
      membership ← or_raise (first (is_membership team.pk user) db.members) not_a_member
      raise_if (is_at team.leader membership.user) cannot_remove_leader
      delete_member team.pk user
      recomputed ← recompute_status team
      emit (audit (some actor.pk) removed_member team.pk)
      emit promote
      emit (email member_left team.pk)
      emit (email member_removed team.pk)
      emit (notify (user ∷ []) team.pk)
      pure recomputed.0)
      db

abbrev pub is_leader_row : TeamMember → Bool
is_leader_row m = elim (m.role) [ leader_role ↦ true | member_role ↦ false ]

-- The rows after `filter(role=LEADER).update(role=MEMBER)` and the save of the new leader's row.
abbrev pub hand_over : ℕ → ℕ → List TeamMember → List TeamMember
hand_over team user members =
    update (is_membership team user) (λ m. record m { role = leader_role })
      (update (λ m. m.team == team && is_leader_row m) (λ m. record m { role = member_role })
        members)

unfoldable pub transfer_leadership : ℕ → User → ℕ → Action Team
transfer_leadership team_pk actor user db =
    (do
      team ← lock_team team_pk
      require_leader team actor
      raise_if (not (is_team_organizer db actor) && not (is_active team.status)) team_inactive
      new_leader ← or_raise (first (is_membership team.pk user) db.members) not_a_member
      let team' = record team { leader = some new_leader.user }
      if is_at team.leader new_leader.user then pure team else (do
        modify (λ s. record s { members = hand_over team.pk user s.members })
        save_team team'
        emit (audit (some actor.pk) transferred_leadership team.pk)
        emit (notify (user ∷ []) team.pk)
        pure team'))
      db

module _ (py : Python) where
  -- A member leaves. The sole leader withdraws the team instead.
  unfoldable pub leave_team : ℕ → User → String → Action (Team × Option ℕ)
  leave_team team_pk user reason db =
      (do
        team ← lock_team team_pk
        or_raise (first (is_membership team.pk user.pk) db.members) not_a_member
        require_team_editable team user
        if is_at team.leader user.pk
            then (do
              raise_if (exists (λ m. m.team == team.pk && not (m.user == user.pk)) db.members)
                  leader_must_transfer
              withdraw py team user.pk reason)
            else (do
              delete_member team.pk user.pk
              recomputed ← recompute_status team
              emit (audit (some user.pk) left_team team.pk)
              emit (email member_left team.pk)
              emit promote
              pure (recomputed.0, none)))
        db
