-- ===== src/Hackathon/Withdrawals/Creation.antt =====
-- Who may create another team.
use srkrcc_main_application.Common.{
  ℕ, ◌+◌, ◌≡◌, ◌<◌, refl, Bool, true, false, not, ◌||◌, List, [], ◌∷◌, arith, is_at, ◌↔◌,
}
use srkrcc_main_application.Common.Rows.Laws.{All}
use srkrcc_main_application.Hackathon.Model.{Team}
use srkrcc_main_application.Hackathon.Monad.{Db, ok}
use srkrcc_main_application.Hackathon.Withdrawals.{
  max_self_created_teams, allowance_for, last_withdrawal, cooling_down, created_count,
  check_can_create,
}

-- The team was not given up by `user` within the cooldown before `now`.
abbrev pub has_cooled_down : ℕ → ℕ → Team → Bool
has_cooled_down user now t =
    not (is_at t.withdrawn_by user) || not (cooling_down t.withdrawn_at now)

cooling_down-cons :
    (user now : ℕ) (t : Team) (ts : List Team)
    → cooling_down (last_withdrawal (t ∷ ts) user) now
      ≡ (not (has_cooled_down user now t) || cooling_down (last_withdrawal ts user) now)
unfolding last_withdrawal
cooling_down-cons user now t ts = ground arith

last_withdrawal_lem :
    (user now : ℕ) (ts : List Team)
    → (cooling_down (last_withdrawal ts user) now ≡ false)
      ↔ All (λ t. has_cooled_down user now t ≡ true) ts
unfolding last_withdrawal
last_withdrawal_lem user now [] = (λ h. tt, λ h. refl)
last_withdrawal_lem user now (t ∷ ts) =
    let rest = last_withdrawal_lem user now ts in
    let step = cooling_down-cons user now t ts in
    (
      λ h. (ground (arith, step), rest.0 (ground (arith, step))),
      λ h. ground (arith, step, h.0, rest.1 h.1),
    )

-- A person may create another team exactly when the teams they created are fewer than two and their
-- extra allowance, and ten minutes have passed since every withdrawal of a team by them.
pub check_can_create_lem :
    (user : ℕ) (db : Db)
    → (check_can_create user db ≡ ok (tt, db)) ↔ (
        (created_count db.teams user < max_self_created_teams + allowance_for db.allowances user)
        × All (λ t. has_cooled_down user db.now t ≡ true) db.teams)
unfolding check_can_create
check_can_create_lem user db = (
  λ h. (ground arith, (last_withdrawal_lem user db.now db.teams).0 (ground arith)),
  λ h. ground (arith, h.0, (last_withdrawal_lem user db.now db.teams).1 h.1),
)
