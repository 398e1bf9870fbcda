-- ===== src/Hackathon/Tests/Fees.antt =====
-- Examples for the payments.
use srkrcc_main_application.Common.{
  squeeze, truncate, ◌≡◌, refl, true, List, [], ◌∷◌, some, none, first, update, ◌==◌,
}
use srkrcc_main_application.Hackathon.Model.{Team, TeamPayment, pay_verified, registered}
use srkrcc_main_application.Hackathon.Monad.{Db, Result, ok}
use srkrcc_main_application.Hackathon.Outcome.{Returns}
use srkrcc_main_application.Hackathon.Store.{is_team_organizer}
use srkrcc_main_application.Hackathon.Registration.Capacity.{
  placed_participants, placed_teams, teams_full, participants_would_exceed,
}
use srkrcc_main_application.Hackathon.Team.{require_team_editable}
use srkrcc_main_application.Hackathon.Team.Members.{leave_team}
use srkrcc_main_application.Hackathon.Withdrawals.{
  withdraw, check_open, window, needs_approval, finish_withdrawal,
}
use srkrcc_main_application.Hackathon.Payments.{lock_payment, payment_of, verify, reject, reviewed}
use srkrcc_main_application.Hackathon.Payments.Invariant.{IsConsistent}
use srkrcc_main_application.Hackathon.Payments.Requests.{
  PaymentRequest, verify_payment, reject_payment, reopen_payment, set_status, handle_all,
  handle_all-IsConsistent,
}
use srkrcc_main_application.Hackathon.Payments.Review.{placed_team, verify_pending}
use srkrcc_main_application.Hackathon.Payments.Stranded.{Stranded, leave_team-Stranded}
use srkrcc_main_application.Hackathon.Tests.{
  plain_python, ada, summer_db, unpaid_team, fee, value_of, rows_of,
}

summer_db-IsConsistent : IsConsistent summer_db.teams summer_db.payments
unfolding payment_of
summer_db-IsConsistent = record {
  team_keys = (refl, (refl, (refl, tt)));
  payment_keys = (refl, tt);
  one_to_one = (refl, tt);
  settled = (refl, (refl, (refl, tt)));
}

-- A rejection, its reopening and a verification; then a second verification is refused.
abbrev reviews : List PaymentRequest
reviews =
    reject_payment ada 31 "Blurred"
    ∷ reopen_payment ada 31
    ∷ verify_payment ada 31
    ∷ verify_payment ada 31
    ∷ set_status 12 ada (some registered) ""
    ∷ []

handle_all-IsConsistent_example :
    IsConsistent
      (handle_all plain_python reviews summer_db).teams
      (handle_all plain_python reviews summer_db).payments
handle_all-IsConsistent_example =
    handle_all-IsConsistent plain_python reviews summer_db summer_db-IsConsistent

fee_locked : lock_payment ada 31 summer_db ≡ ok ((fee, unpaid_team), summer_db)
unfolding lock_payment is_team_organizer
fee_locked = refl

verify_pending_example :
    Returns
      (λ p' db'.
        (p' ≡ reviewed fee pay_verified (some 1) (some 100) "")
        × (db'.payments ≡ update (λ q. q.pk == 31) (λ _. p') summer_db.payments)
        × (first (λ x. x.pk == 11) db'.teams ≡ some (placed_team unpaid_team summer_db))
        × (db'.members ≡ summer_db.members))
      (verify ada 31 summer_db)
unfolding teams_full participants_would_exceed placed_teams placed_participants
verify_pending_example = verify_pending ada 31 fee unpaid_team summer_db fee_locked refl refl refl

abbrev rejecting : Result (TeamPayment × Db)
rejecting = reject plain_python ada 31 "Blurred" summer_db

-- The organizer Ada leads the unpaid team and leaves it.
abbrev after_leaving : Db
after_leaving = rows_of summer_db (leave_team plain_python 11 ada "No time" summer_db)

abbrev left_team_row : Team
left_team_row =
    (value_of (unpaid_team, none) (leave_team plain_python 11 ada "No time" summer_db)).0

leaving_succeeds :
    leave_team plain_python 11 ada "No time" summer_db ≡ ok ((left_team_row, none), after_leaving)
unfolding truncate squeeze leave_team require_team_editable is_team_organizer withdraw check_open
    window needs_approval finish_withdrawal
leaving_succeeds = refl

ada_reviews : is_team_organizer after_leaving ada ≡ true
unfolding is_team_organizer
ada_reviews = refl

leave_team-Stranded_example :
    (is_team_organizer summer_db ada ≡ true)
    × (first (λ q. q.pk == 31) after_leaving.payments ≡ some fee)
    × Stranded plain_python ada 31 "" after_leaving
leave_team-Stranded_example =
    leave_team-Stranded plain_python 11 ada ada "No time" "" unpaid_team left_team_row fee summer_db
      after_leaving refl refl refl refl refl refl ada_reviews leaving_succeeds
