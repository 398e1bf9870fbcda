-- ===== src/Hackathon/Tests/Queue.antt =====
-- Examples for the waitlist.
use srkrcc_main_application.Common.{◌≡◌, refl, arith, inl, inr, true, false, some, [], ◌∷◌}
use srkrcc_main_application.Common.Rows.Laws.{All}
use srkrcc_main_application.Hackathon.Model.{Team, TeamPayment, pay_verified, is_active}
use srkrcc_main_application.Hackathon.Monad.{Db}
use srkrcc_main_application.Hackathon.Registration.Capacity.{
  placed_participants, placed_teams, teams_full, participants_would_exceed,
}
use srkrcc_main_application.Hackathon.Waitlist.{
  waitlist, promote_waitlist, promote_from, place, sort_teams, insert_team,
}
use srkrcc_main_application.Hackathon.Waitlist.Capacity.{IsWithin, promote_waitlist-IsWithin}
use srkrcc_main_application.Hackathon.Waitlist.Fairness.{
  IsServed, is_waiting, promote_waitlist-IsServed,
}
use srkrcc_main_application.Hackathon.Waitlist.Precedence.{promote_waitlist-precedence}
use srkrcc_main_application.Hackathon.Tests.{summer_db, forming_team, queued_team, fee}

summer_db-IsWithin : IsWithin summer_db
unfolding placed_teams placed_participants
summer_db-IsWithin = record {
  keys = (refl, (refl, (refl, tt)));
  teams = inr (omega arith);
  participants = inr (omega arith);
}

promote_waitlist-IsWithin_example : IsWithin (promote_waitlist summer_db)
promote_waitlist-IsWithin_example = promote_waitlist-IsWithin summer_db summer_db-IsWithin

promote_waitlist-IsServed_example : All (IsServed (promote_waitlist summer_db)) (waitlist summer_db)
promote_waitlist-IsServed_example = promote_waitlist-IsServed summer_db

-- The team that was created first waits for less time, since its payment was reviewed late.
abbrev paid_team : Team
paid_team = record forming_team { is_waitlisted = true }

abbrev late_fee : TeamPayment
late_fee = record fee { team = some 12; status = pay_verified; reviewed_at = some 60 }

abbrev two_queued : Db
two_queued = record summer_db { teams = paid_team ∷ queued_team ∷ []; payments = late_fee ∷ [] }

paid_team_placed : is_waiting 12 (promote_waitlist two_queued).teams ≡ false
unfolding promote_waitlist waitlist sort_teams insert_team promote_from place teams_full
    participants_would_exceed placed_teams placed_participants
paid_team_placed = refl

promote_waitlist-precedence_example :
    (is_active paid_team.status ≡ true)
    × (is_waiting 13 (promote_waitlist two_queued).teams ≡ false)
promote_waitlist-precedence_example =
    promote_waitlist-precedence queued_team paid_team 33 60 two_queued (refl, (refl, tt))
      (inr (inl refl)) (inl refl) refl refl refl (inr (inr (refl, refl)))
      (inl (late_fee, refl, refl)) (inl (omega arith)) (omega arith) paid_team_placed
