-- ===== src/Hackathon/Team/Admin.antt =====
-- `TeamService` of apps/hackathons/services.py: what organizers do over the guards.
use srkrcc_main_application.Common.{
  squeeze, strip, truncate, ℕ, suc, String, not, ◌||◌, Option, none, some, List, [], ◌∷◌, ◌==◌,
  is_some, str_eq, first, select, map, if◌then◌else◌, Python,
}
use srkrcc_main_application.Hackathon.Model.{
  TeamStatus, leader_role, member_role, User, Team, is_active, is_out, is_unpaid,
}
use srkrcc_main_application.Hackathon.Monad.{
  Action, ◌>>=◌, ◌>>◌, pure, raise_if, when, or_raise, emit, audit, celebrate, email, notify,
  promote, team_gone, status_changed, admin_added_member, admin_changed_status, user_not_found,
  already_in_team, invalid_status, use_payments,
}
use srkrcc_main_application.Hackathon.Store.{lock_team, save_team, has_team}
use srkrcc_main_application.Hackathon.Team.{
  status_code, recompute_status, create_member, cancel_invites_of, notify_member_joined,
}
use srkrcc_main_application.Hackathon.Withdrawals.{close_pending}

-- The loop of `recompute_statuses`, over the teams that were active when it began.
unfoldable pub recompute_from : List Team → ℕ → Action ℕ
recompute_from [] changed = pure changed
recompute_from (team ∷ rest) changed = do
  after ← recompute_status team
  recompute_from rest
      (if status_code after.0.status == status_code team.status then changed else suc changed)

-- `recompute_statuses`: after `min_team_size` changed.
unfoldable pub recompute_statuses : Action ℕ
recompute_statuses db = recompute_from (select (λ t. is_active t.status) db.teams) 0 db

module _ (py : Python) where
  unfoldable pub admin_add_member : ℕ → User → String → Action Team
  admin_add_member team_pk actor email_address db =
      (do
        team ← lock_team team_pk
        user ←
            or_raise
              (first (λ u. str_eq (py.lower u.email) (py.lower (strip email_address))) db.users)
              user_not_found
        raise_if (has_team user.pk db.members) already_in_team
        let first_member = not (is_some team.leader)
        let team' = if first_member then record team { leader = some user.pk } else team
        create_member (record {
          team = team.pk;
          user = user.pk;
          role = if first_member then leader_role else member_role;
          rules_accepted_at = none;
          answers = [];
        })
        when first_member (save_team team')
        cancel_invites_of user.pk
        recomputed ← recompute_status team'
        emit (audit (some actor.pk) admin_added_member team.pk)
        notify_member_joined recomputed.0 recomputed.1
        emit (notify (user.pk ∷ []) team.pk)
        pure recomputed.0)
        db

  -- `status_reason` after an organizer set the status.
  abbrev pub reason_for : TeamStatus → String → String
  reason_for status reason = if is_out status then truncate 300 (squeeze reason) else ""

  -- `admin_set_status`; `none` is a text that names no status.
  unfoldable pub admin_set_status : ℕ → User → Option TeamStatus → String → Action Team
  admin_set_status team_pk actor requested reason db =
      (do
        team ← lock_team team_pk
        status ← or_raise requested invalid_status
        raise_if (is_unpaid status || is_unpaid team.status) use_payments
        let team' = record team { status = status; status_reason = reason_for status reason }
        save_team team'
        when (not (is_active status)) (do close_pending team.pk; emit (celebrate team_gone team.pk))
        recomputed ← recompute_status team'
        let after = recomputed.0
        emit (audit (some actor.pk) admin_changed_status team.pk)
        when (not (is_active after.status)) (emit promote)
        when (not (status_code after.status == status_code team.status)) (do
          emit (notify (map (λ m. m.user) (select (λ m. m.team == team.pk) db.members)) team.pk)
          emit (email status_changed team.pk))
        pure after)
        db
