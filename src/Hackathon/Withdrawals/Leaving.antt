-- ===== src/Hackathon/Withdrawals/Leaving.antt =====
-- What giving up a team does to the rows.
use srkrcc_main_application.Common.{
  str_eq, ℕ, ◌≡◌, refl, String, Bool, true, false, not, ◌&&◌, Option, none, some, List, [], ◌∷◌,
  ◌==◌, arith, first, delete, exists, update, if◌then◌else◌, Bool-cases, ◌⊎◌, inl, inr, ==→eq,
  Python,
}
use srkrcc_main_application.Common.Rows.Laws.{
  exists-append, first_holds, exists_of_first, first-save, first_overwritten,
}
use srkrcc_main_application.Hackathon.Model.{
  request_pending, Team, TeamMember, TeamInvite, WithdrawalRequest, withdrawn, is_active,
  is_pending_invite, is_pending_request, invite_cancelled,
}
use srkrcc_main_application.Hackathon.Monad.{Db, ok}
use srkrcc_main_application.Hackathon.Outcome.{Result-cases}
use srkrcc_main_application.Hackathon.Store.{size}
use srkrcc_main_application.Hackathon.Withdrawals.{
  clean_reason, check_open, needs_approval, finish_withdrawal, create_request, withdraw,
  decide_withdrawal,
}

no_team_invites :
    (team now : ℕ) (invites : List TeamInvite)
    → exists
        (λ i. i.team == team && is_pending_invite i.status)
        (update
          (λ i. i.team == team && is_pending_invite i.status)
          (λ i. record i { status = invite_cancelled; responded_at = some now })
          invites)
      ≡ false
no_team_invites team now [] = refl
no_team_invites team now (i ∷ is) = ground (arith, no_team_invites team now is)

-- With its last member gone a team is empty.
empty_team :
    (team user : ℕ) (ms : List TeamMember)
    → exists (λ m. m.team == team && not (m.user == user)) ms ≡ false
    → size team (delete (λ m. m.team == team && m.user == user) ms) ≡ 0
empty_team team user [] h = refl
empty_team team user (m ∷ ms) h = ground (arith, empty_team team user ms)

-- `team` was given up on behalf of `user`.
pub record GivenUp (t : Team) (user : ℕ) (db : Db) (t' : Team) (db' : Db) : Type 0 where
  pub key : t'.pk ≡ t.pk
  pub status : t'.status ≡ withdrawn
  pub leader : t'.leader ≡ none
  pub by : t'.withdrawn_by ≡ some user
  pub at : t'.withdrawn_at ≡ some db.now
  pub rows : db'.teams ≡ update (λ x. x.pk == t.pk) (λ _. t') db.teams
  pub members : db'.members ≡ delete (λ m. m.team == t.pk && m.user == user) db.members
  pub invites : exists (λ i. i.team == t.pk && is_pending_invite i.status) db'.invites ≡ false
  pub payments : db'.payments ≡ db.payments
  pub withdrawals : db'.withdrawals ≡ db.withdrawals
  pub hackathon : db'.hackathon ≡ db.hackathon
  pub staff : db'.staff ≡ db.staff

pub finish_withdrawal-GivenUp :
    (t t' : Team) (user actor : ℕ) (reason : String) (db db' : Db)
    → finish_withdrawal t user actor reason db ≡ ok (t', db')
    → GivenUp t user db t' db'
unfolding finish_withdrawal
finish_withdrawal-GivenUp t t' user actor reason db db' h =
    ground (arith, no_team_invites t.pk db.now db.invites)

-- A request is pending for `t`, and nothing else of the rows changed.
pub record Requested (t : Team) (user pk : ℕ) (db : Db) (db' : Db) : Type 0 where
  pub none_before :
      exists (λ r. r.team == t.pk && is_pending_request r.status) db.withdrawals ≡ false
  pub pending :
      exists
        (λ r. r.pk == pk && r.team == t.pk && r.requested_by == user && is_pending_request r.status)
        db'.withdrawals
      ≡ true
  pub teams : db'.teams ≡ db.teams
  pub members : db'.members ≡ db.members
  pub payments : db'.payments ≡ db.payments
  pub invites : db'.invites ≡ db.invites

check_open_reads :
    (t : Team) (x : Unit {0}) (db db' : Db) → check_open t db ≡ ok (x, db') → db' ≡ db
unfolding check_open
check_open_reads t x db db' h = ground arith

abbrev new_request : ℕ → ℕ → ℕ → String → WithdrawalRequest
new_request pk team user reason = record {
  pk = pk;
  team = team;
  requested_by = user;
  reason = reason;
  status = request_pending;
  decided_by = none;
  decided_at = none;
  decision_note = "";
}

create_request-Requested :
    (t : Team) (user k : ℕ) (reason : String) (db db' : Db)
    → create_request t.pk user reason db ≡ ok (k, db')
    → Requested t user k db db'
unfolding create_request
create_request-Requested t user k reason db db' h = ground (
  arith,
  exists-append
      (λ r. r.pk == k && r.team == t.pk && r.requested_by == user && is_pending_request r.status)
      db.withdrawals (new_request k t.pk user reason),
)

-- A leader's wish to withdraw is granted only with a reason and while withdrawals are open to the
-- team. It becomes a pending request, the teams, members, invites and payments untouched, exactly
-- when the team needs approval, and otherwise the team is given up at once: it is withdrawn, has no
-- leader, loses the leader's membership and has no pending invite.
pub withdraw_lem :
    (py : Python) (t t' : Team) (user : ℕ) (reason : String) (pk : Option ℕ) (db db' : Db)
    → withdraw py t user reason db ≡ ok ((t', pk), db')
    → (str_eq (clean_reason py reason) "" ≡ false)
      × (check_open t db ≡ ok (tt, db))
      × (((needs_approval t db ≡ false) × (pk ≡ none) × GivenUp t user db t' db')
          ⊎ ((needs_approval t db ≡ true)
              × ((k : ℕ) × (pk ≡ some k) × (t' ≡ t) × Requested t user k db db')))
unfolding withdraw
withdraw_lem py t t' user reason pk db db' h = elim (Result-cases (check_open t db)) [
  | inl (e, p) ↦ absurd (ground arith)
  | inr ((x, s), p) ↦
      let q = check_open_reads t x db s p in
      elim (Bool-cases (needs_approval t db)) [
        | inr off ↦
            elim (Result-cases (finish_withdrawal t user user (clean_reason py reason) db)) [
              | inl (e, o) ↦ absurd (ground arith)
              | inr ((r, s'), o) ↦
                  ground (
                    arith,
                    finish_withdrawal-GivenUp t r user user (clean_reason py reason) db s' o,
                  )
            ]
        | inl on ↦ elim (Result-cases (create_request t.pk user (clean_reason py reason) db)) [
          | inl (e, o) ↦ absurd (ground arith)
          | inr ((k, s'), o) ↦ (
            ground arith,
            ground arith,
            inr (
              on,
              (
                k,
                ground arith,
                ground arith,
                ground (arith, create_request-Requested t user k (clean_reason py reason) db s' o),
              ),
            ),
          )
        ]
      ]
]

-- Approving a withdrawal succeeds only for an active team in which nobody but the requester is left.
-- The team is withdrawn then, and the requester's membership is the only one that goes: the team has no
-- members left. Denying it leaves every team and member as they
-- were. Either way the request is no longer pending, so that it is decided once.
pub decide_withdrawal_lem :
    (py : Python) (t : Team) (pk actor : ℕ) (approve : Bool) (note : String)
    (request request' : WithdrawalRequest) (db db' : Db)
    → first (λ r. r.pk == pk) db.withdrawals ≡ some request
    → first (λ x. x.pk == request.team) db.teams ≡ some t
    → decide_withdrawal py pk actor approve note db ≡ ok (request', db')
    → (is_pending_request request.status ≡ true)
      × (first (λ r. r.pk == pk) db'.withdrawals ≡ some request')
      × (is_pending_request request'.status ≡ false)
      × (if approve
          then (is_active t.status ≡ true)
            × (exists (λ m. m.team == t.pk && not (m.user == request.requested_by)) db.members
                ≡ false)
            × (db'.members
                ≡ delete (λ m. m.team == t.pk && m.user == request.requested_by) db.members)
            × (size t.pk db'.members ≡ 0)
            × (first (λ x. x.pk == request.team) db'.teams
                ≡ some (record t {
                  leader = none;
                  status = withdrawn;
                  status_reason = request.reason;
                  withdrawn_at = some db.now;
                  withdrawn_by = some request.requested_by;
                }))
          else (db'.teams ≡ db.teams) × (db'.members ≡ db.members))
unfolding decide_withdrawal finish_withdrawal
decide_withdrawal_lem py t pk actor true note request request' db db' found team h =
    let key = ==→eq _ _ (first_holds (λ r. r.pk == pk) db.withdrawals request found) in
    let team_key : t.pk ≡ request.team =
      ==→eq _ _ (first_holds (λ x. x.pk == request.team) db.teams t team) in
    ground (
      arith,
      key,
      team_key,
      empty_team t.pk request.requested_by db.members,
      exists_of_first (λ x. x.pk == request.team) db.teams t team,
      first-save (λ (x : Team). x.pk)
          (record t {
            leader = none;
            status = withdrawn;
            status_reason = request.reason;
            withdrawn_at = some db.now;
            withdrawn_by = some request.requested_by;
          })
          request.team db.teams,
      first_overwritten (λ (r : WithdrawalRequest). r.pk) pk request' request db.withdrawals found,
    )
decide_withdrawal_lem py t pk actor false note request request' db db' found team h =
    let key = ==→eq _ _ (first_holds (λ r. r.pk == pk) db.withdrawals request found) in
    ground (
      arith,
      first_overwritten (λ (r : WithdrawalRequest). r.pk) pk request' request db.withdrawals found,
    )
