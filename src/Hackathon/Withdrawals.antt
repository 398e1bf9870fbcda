-- ===== src/Hackathon/Withdrawals.antt =====
-- apps/hackathons/withdrawals.py: who may create another team, and giving a team up.
pub mod Creation
pub mod Leaving
use srkrcc_main_application.Common.{
  squeeze, truncate, ℕ, ◌+◌, String, Bool, true, false, not, ◌&&◌, ◌||◌, Option, none, some, List,
  [], ◌∷◌, ◌==◌, leb, ltb, is_at, str_eq, count, exists, first, update, delete, map, select, append,
  max, if◌then◌else◌, Python,
}
use srkrcc_main_application.Hackathon.Model.{
  WithdrawalPolicy, instant, approval, locked, withdrawn, Hackathon, Team, invite_cancelled,
  WithdrawalRequest, request_pending, request_approved, request_denied, request_cancelled,
  TeamAllowance, is_active, is_registered, is_pending_invite, is_pending_request,
}
use srkrcc_main_application.Hackathon.Monad.{
  Db, ok, Error, Action, ◌>>=◌, ◌>>◌, pure, raise, raise_if, modify, when, or_raise, emit, fresh,
  audit, celebrate, notify, promote, team_gone, withdrew_team, requested_withdrawal,
  approved_withdrawal, denied_withdrawal, team_limit_reached, withdraw_cooldown, reason_required,
  withdrawal_pending, withdrawal_locked, withdrawal_closed, no_withdrawal_pending, already_decided,
  team_not_empty, team_inactive, does_not_exist,
}
use srkrcc_main_application.Hackathon.Store.{is_team_organizer, save_team, reached, lock_team}

abbrev pub max_self_created_teams : ℕ
max_self_created_teams = 2

-- Ten minutes.
abbrev pub cooldown : ℕ
cooldown = 600

abbrev pub max_reason_length : ℕ
max_reason_length = 300

abbrev pub is_instant : WithdrawalPolicy → Bool
is_instant instant = true
is_instant approval = false
is_instant locked = false

abbrev pub is_locked : WithdrawalPolicy → Bool
is_locked locked = true
is_locked instant = false
is_locked approval = false

-- `team.round_entries.exists()`, `CheckIn.objects.filter(team=team).exists()`
abbrev pub has_row : ℕ → List ℕ → Bool
has_row team rows = exists (λ t. t == team) rows

unfoldable pub needs_approval : Team → Db → Bool
needs_approval team db =
    if is_instant db.hackathon.withdrawal_policy
    then has_row team.pk db.round_entries || has_row team.pk db.check_ins
    else (is_registered team.status && not team.is_waitlisted) || has_row team.pk db.round_entries

unfoldable pub holds_place : Team → Db → Bool
holds_place team db = is_registered team.status || has_row team.pk db.round_entries

pub data Closed : Type 0 where
  ended by_lock by_deadline : Closed

-- `window`: `none` is open, and otherwise the reason that it is not.
unfoldable pub window : Hackathon → ℕ → Option Closed
window h now =
    if reached now h.end_date
    then some ended
    else if is_locked h.withdrawal_policy
    then some by_lock
    else if reached now h.withdrawal_deadline
    then some by_deadline
    else none

-- The code of `_closed_message`.
abbrev pub closed_code : Closed → Error
closed_code ended = withdrawal_closed
closed_code by_lock = withdrawal_locked
closed_code by_deadline = withdrawal_closed

abbrev pub is_ended : Closed → Bool
is_ended ended = true
is_ended by_lock = false
is_ended by_deadline = false

unfoldable pub check_open : Team → Action (Unit {0})
check_open team db = elim (window db.hackathon db.now) [
  | none ↦ pure tt db
  | some reason ↦
      if not (is_ended reason) && not (holds_place team db)
      then pure tt db
      else raise (closed_code reason) db
]

unfoldable pub allowance_for : List TeamAllowance → ℕ → ℕ
allowance_for rows user = elim (first (λ a. a.user == user) rows) [ none ↦ 0 | some a ↦ a.extra ]

-- The latest `withdrawn_at` of the teams that `user` withdrew.
unfoldable pub last_withdrawal : List Team → ℕ → Option ℕ
last_withdrawal [] user = none
last_withdrawal (t ∷ ts) user =
    let last = last_withdrawal ts user in
    if is_at t.withdrawn_by user
    then elim (t.withdrawn_at) [
      | none ↦ last
      | some at ↦ elim last [ none ↦ some at | some other ↦ some (max at other) ]
    ]
    else last

abbrev pub cooling_down : Option ℕ → ℕ → Bool
cooling_down none now = false
cooling_down (some at) now = ltb now (at + cooldown)

unfoldable pub created_count : List Team → ℕ → ℕ
created_count teams user = count (λ t. is_at t.created_by user) teams

unfoldable pub check_can_create : ℕ → Action (Unit {0})
check_can_create user db =
    (do
      raise_if
          (leb (max_self_created_teams + allowance_for db.allowances user)
            (created_count db.teams user))
          team_limit_reached
      raise_if (cooling_down (last_withdrawal db.teams user) db.now) withdraw_cooldown)
      db

-- `_finish_withdrawal`: the leader leaves and the team is withdrawn, not deleted.
unfoldable pub finish_withdrawal : Team → ℕ → ℕ → String → Action Team
finish_withdrawal team member actor reason = do
  modify
      λ db. record db { members = delete (λ m. m.team == team.pk && m.user == member) db.members }
  team' ← λ db. ok (
    record team {
      leader = none;
      status = withdrawn;
      status_reason = reason;
      withdrawn_at = some db.now;
      withdrawn_by = some member;
    },
    db,
  )
  save_team team'
  modify λ db. record db {
    invites =
        update (λ i. i.team == team.pk && is_pending_invite i.status)
          (λ i. record i { status = invite_cancelled; responded_at = some db.now }) db.invites;
  }
  emit (celebrate team_gone team.pk)
  emit (audit (some actor) withdrew_team team.pk)
  emit promote
  pure team'

-- `WithdrawalRequest.objects.create`: one pending request for a team, by a unique constraint.
unfoldable pub create_request : ℕ → ℕ → String → Action ℕ
create_request team user reason db =
    (do
      raise_if (exists (λ r. r.team == team && is_pending_request r.status) db.withdrawals)
          withdrawal_pending
      pk ← fresh
      modify (λ s. record s {
        withdrawals = append s.withdrawals (record {
          pk = pk;
          team = team;
          requested_by = user;
          reason = reason;
          status = request_pending;
          decided_by = none;
          decided_at = none;
          decision_note = "";
        });
      })
      pure pk)
      db

-- `_organizers_to_tell`
unfoldable pub organizers_to_tell : Db → List ℕ
organizers_to_tell db =
    map (λ row. row.user)
      (select (λ row. exists (λ u. u.pk == row.user && is_team_organizer db u) db.users) db.staff)

module _ (py : Python) where
  abbrev pub clean_reason : String → String
  clean_reason reason = truncate max_reason_length (squeeze reason)

  -- `WithdrawalService.withdraw`: the sole leader gives up the team, at once or by a request.
  unfoldable pub withdraw : Team → ℕ → String → Action (Team × Option ℕ)
  withdraw team user reason db =
      (do
        raise_if (str_eq (clean_reason reason) "") reason_required
        check_open team
        if needs_approval team db
            then (do
              pk ← create_request team.pk user (clean_reason reason)
              emit (audit (some user) requested_withdrawal team.pk)
              emit (notify (organizers_to_tell db) team.pk)
              pure (team, some pk))
            else (do
              team' ← finish_withdrawal team user user (clean_reason reason)
              pure (team', none)))
        db

  -- `WithdrawalService.decide`
  unfoldable pub decide_withdrawal : ℕ → ℕ → Bool → String → Action WithdrawalRequest
  decide_withdrawal request_pk actor approve note db =
      (do
        request ← or_raise (first (λ r. r.pk == request_pk) db.withdrawals) does_not_exist
        raise_if (not (is_pending_request request.status)) already_decided
        team ← lock_team request.team
        when approve (do
          raise_if (not (is_active team.status)) team_inactive
          raise_if
              (exists (λ m. m.team == team.pk && not (m.user == request.requested_by)) db.members)
              team_not_empty
          finish_withdrawal team request.requested_by actor request.reason
          pure tt)
        let request' = record request {
          status = if approve then request_approved else request_denied;
          decided_by = some actor;
          decided_at = some db.now;
          decision_note = clean_reason note;
        }
        modify (λ s. record s {
          withdrawals = update (λ r. r.pk == request_pk) (λ _. request') s.withdrawals;
        })
        emit (
            audit (some actor) (if approve then approved_withdrawal else denied_withdrawal) team.pk)
        emit (notify (request.requested_by ∷ []) team.pk)
        pure request')
        db

-- `WithdrawalService.cancel`
unfoldable pub cancel_withdrawal : ℕ → Action ℕ
cancel_withdrawal team db =
    (do
      request ←
          or_raise (first (λ r. r.team == team && is_pending_request r.status) db.withdrawals)
            no_withdrawal_pending
      modify (λ s. record s {
        withdrawals =
            update (λ r. r.pk == request.pk)
              (λ r. record r { status = request_cancelled; decided_at = some db.now })
              s.withdrawals;
      })
      pure request.pk)
      db

-- `WithdrawalService.close_pending`
unfoldable pub close_pending : ℕ → Action (Unit {0})
close_pending team = modify λ db. record db {
  withdrawals =
      update (λ r. r.team == team && is_pending_request r.status)
        (λ r. record r { status = request_cancelled; decided_at = some db.now }) db.withdrawals;
}
