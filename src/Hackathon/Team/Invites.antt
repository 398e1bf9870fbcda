-- ===== src/Hackathon/Team/Invites.antt =====
-- `TeamService` of apps/hackathons/services.py: the life of an invite, by account and by email.
use srkrcc_main_application.Common.{
  strip, ℕ, suc, ◌-◌, String, Bool, false, not, ◌&&◌, ◌||◌, Option, none, some, List, [], ◌∷◌, ◌==◌,
  leb, ltb, is_at, str_eq, exists, first, select, update, append, if◌then◌else◌, Python,
}
use srkrcc_main_application.Hackathon.Model.{
  User, Team, TeamInvite, invite_pending, invite_accepted, invite_declined, invite_cancelled,
  TeamEmailInvite, email_pending, email_claimed, email_cancelled, is_active, is_pending_invite,
  is_pending_email,
}
use srkrcc_main_application.Hackathon.Monad.{
  Db, Action, ◌>>=◌, ◌>>◌, pure, raise_if, modify, when, or_raise, emit, fresh, audit, notify,
  invite_email, email_invite_email, invited_member, invited_by_email, cancelled_email_invite,
  cancelled_invite, joined_team, declined_invite, permission_denied, does_not_exist, user_not_found,
  cannot_invite, email_invalid, account_exists, invite_not_pending, team_full,
}
use srkrcc_main_application.Hackathon.Store.{lock_team, has_team, is_registration_open}
use srkrcc_main_application.Hackathon.Registration.{RegistrationData}
use srkrcc_main_application.Hackathon.Team.{
  require_leader, require_team_editable, slots_used, notify_member_joined, admit,
}

-- `invite_eligibility`, without the wording of the reason.
unfoldable pub can_invite : Team → User → Db → Bool
can_invite team user db =
    not
      (is_at team.leader user.pk || exists (λ m. m.team == team.pk && m.user == user.pk) db.members)
    && not (has_team user.pk db.members)
    && not (
        exists (λ i. i.team == team.pk && i.invited_user == user.pk && is_pending_invite i.status)
          db.invites)
    && not (leb db.hackathon.max_team_size (slots_used team.pk db))

-- `TeamInvite.objects.create`: one pending invite for a team and a person, by a unique constraint.
unfoldable pub create_invite : ℕ → ℕ → ℕ → Action ℕ
create_invite team user by db =
    (do
      raise_if
          (exists (λ i. i.team == team && i.invited_user == user && is_pending_invite i.status)
            db.invites)
          cannot_invite
      pk ← fresh
      modify (λ s. record s {
        invites = append s.invites (record {
          pk = pk;
          team = team;
          invited_user = user;
          invited_by = by;
          status = invite_pending;
          responded_at = none;
        });
      })
      pure pk)
      db

abbrev pub invite_at : List TeamInvite → ℕ → Option TeamInvite
invite_at rows pk = first (λ i. i.pk == pk) rows

abbrev pub save_invite : TeamInvite → Action (Unit {0})
save_invite invite =
    modify λ db. record db { invites = update (λ i. i.pk == invite.pk) (λ _. invite) db.invites }

abbrev pub save_email_invite : TeamEmailInvite → Action (Unit {0})
save_email_invite invite = modify λ db. record db {
  email_invites = update (λ i. i.pk == invite.pk) (λ _. invite) db.email_invites;
}

unfoldable pub cancel_invite : ℕ → User → Action TeamInvite
cancel_invite pk actor db =
    (do
      invite ← or_raise (invite_at db.invites pk) does_not_exist
      team ← lock_team invite.team
      require_leader team actor
      raise_if (not (is_pending_invite invite.status)) invite_not_pending
      let invite' = record invite { status = invite_cancelled; responded_at = some db.now }
      save_invite invite'
      emit (audit (some actor.pk) cancelled_invite team.pk)
      pure invite')
      db

unfoldable pub cancel_email_invite : ℕ → User → Action TeamEmailInvite
cancel_email_invite pk actor db =
    (do
      invite ← or_raise (first (λ i. i.pk == pk) db.email_invites) does_not_exist
      team ← lock_team invite.team
      require_leader team actor
      raise_if (not (is_pending_email invite.status)) invite_not_pending
      let invite' = record invite { status = email_cancelled; resolved_at = some db.now }
      save_email_invite invite'
      emit (audit (some actor.pk) cancelled_email_invite team.pk)
      pure invite')
      db

unfoldable pub decline_invite : ℕ → User → Action TeamInvite
decline_invite pk user db =
    (do
      invite ← or_raise (invite_at db.invites pk) does_not_exist
      raise_if (not (invite.invited_user == user.pk)) permission_denied
      raise_if (not (is_pending_invite invite.status)) invite_not_pending
      let invite' = record invite { status = invite_declined; responded_at = some db.now }
      save_invite invite'
      emit (audit (some user.pk) declined_invite invite.team)
      when (not (invite.invited_by == user.pk)) (emit (notify (invite.invited_by ∷ []) invite.team))
      pure invite')
      db

module _ (py : Python) where
  abbrev pub same_email : String → User → Bool
  same_email email user = str_eq (py.lower user.email) (py.lower email)

  unfoldable pub invite : ℕ → User → String → Action ℕ
  invite team_pk actor email db =
      let address = strip email in
      (do
        team ← lock_team team_pk
        require_leader team actor
        require_team_editable team actor
        target ←
            or_raise (if str_eq address "" then none else first (same_email address) db.users)
              user_not_found
        raise_if (not (can_invite team target db)) cannot_invite
        pk ← create_invite team.pk target.pk actor.pk
        emit (audit (some actor.pk) invited_member team.pk)
        emit (notify (target.pk ∷ []) team.pk)
        emit (invite_email pk)
        pure pk)
        db

  -- Invite someone who has no account yet.
  unfoldable pub invite_by_email : ℕ → User → String → Action ℕ
  invite_by_email team_pk actor email db =
      let address = py.lower (strip email) in
      (do
        team ← lock_team team_pk
        require_leader team actor
        require_team_editable team actor
        raise_if (not (py.valid_email address)) email_invalid
        raise_if (exists (same_email address) db.users) account_exists
        raise_if (leb db.hackathon.max_team_size (slots_used team.pk db)) team_full
        raise_if
            (exists
              (λ i.
                i.team == team.pk
                && str_eq (py.lower i.email) (py.lower address)
                && is_pending_email i.status)
              db.email_invites)
            cannot_invite
        pk ← fresh
        modify (λ s. record s {
          email_invites = append s.email_invites (record {
            pk = pk;
            team = team.pk;
            email = address;
            invited_by = actor.pk;
            status = email_pending;
            resolved_at = none;
          });
        })
        emit (audit (some actor.pk) invited_by_email team.pk)
        emit (email_invite_email pk)
        pure pk)
        db

  -- Whether a claimed email invite still becomes an invite; its own slot is not counted.
  unfoldable pub is_usable : Team → User → Db → Bool
  is_usable team user db =
      is_active team.status
      && is_registration_open db.now db.hackathon
      && not db.hackathon.team_edits_locked
      && not (has_team user.pk db.members)
      && ltb (slots_used team.pk db - 1) db.hackathon.max_team_size

  -- One round of the loop of `claim_email_invites`, with how many were claimed so far.
  unfoldable pub claim_one : User → TeamEmailInvite → ℕ → Action ℕ
  claim_one user email_invite claimed db =
      (do
        team ← lock_team email_invite.team
        if is_usable team user db
            then (do
              save_email_invite
                  (record email_invite { status = email_claimed; resolved_at = some db.now })
              create_invite team.pk user.pk email_invite.invited_by
              emit (notify (user.pk ∷ []) team.pk)
              pure (suc claimed))
            else (do
              save_email_invite
                  (record email_invite { status = email_cancelled; resolved_at = some db.now })
              pure claimed))
        db

  unfoldable pub claim_from : User → List TeamEmailInvite → ℕ → Action ℕ
  claim_from user [] claimed = pure claimed
  claim_from user (i ∷ rest) claimed = do
    total ← claim_one user i claimed
    claim_from user rest total

  -- Turn every pending email invite for this new account into a normal invite.
  unfoldable pub claim_email_invites : User → Action ℕ
  claim_email_invites user db =
      claim_from user
        (select (λ i. same_email i.email user && is_pending_email i.status) db.email_invites) 0 db

  unfoldable pub accept_invite : ℕ → User → RegistrationData → Action Team
  accept_invite pk user data' db =
      (do
        invite ← or_raise (invite_at db.invites pk) does_not_exist
        team ← lock_team invite.team
        raise_if (not (invite.invited_user == user.pk)) permission_denied
        raise_if (not (is_pending_invite invite.status)) invite_not_pending
        admitted ← admit py team user data' false
        save_invite (record invite { status = invite_accepted; responded_at = some db.now })
        emit (audit (some user.pk) joined_team team.pk)
        notify_member_joined admitted.0 admitted.1
        when (not (is_at admitted.0.leader user.pk)) (elim (admitted.0.leader) [
          | none ↦ pure tt
          | some leader ↦ emit (notify (leader ∷ []) team.pk)
        ])
        pure admitted.0)
        db
