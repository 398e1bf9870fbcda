-- ===== src/Hackathon/Tests/Invites.antt =====
-- Examples for invites.
use srkrcc_main_application.Common.{strip, ℕ, ◌+◌, ◌≡◌, ◌≤◌, refl}
use srkrcc_main_application.Hackathon.Monad.{Db, Result, ok}
use srkrcc_main_application.Hackathon.Store.{is_team_organizer, is_registration_open}
use srkrcc_main_application.Hackathon.Team.{
  require_registration_open, require_leader, require_team_editable, slots_used,
}
use srkrcc_main_application.Hackathon.Team.Invites.{
  can_invite, create_invite, invite, invite_by_email,
}
use srkrcc_main_application.Hackathon.Team.Slots.{invite_slots, invite_by_email_slots}
use srkrcc_main_application.Hackathon.Tests.{plain_python, bob, summer_db, forming_team, rows_of}

-- Bob invites Dan, who has no team.
abbrev inviting : Result (ℕ × Db)
inviting = invite plain_python 12 bob "dan@example.org" summer_db

inviting_succeeds : inviting ≡ ok (60, rows_of summer_db inviting)
unfolding strip invite require_leader require_team_editable require_registration_open
    is_team_organizer is_registration_open can_invite create_invite slots_used
inviting_succeeds = refl

invite_slots_example :
    (slots_used 12 (rows_of summer_db inviting) ≡ slots_used 12 summer_db + 1)
    × (slots_used 12 (rows_of summer_db inviting) ≤ 3)
invite_slots_example =
    invite_slots plain_python 12 60 bob "dan@example.org" forming_team summer_db
      (rows_of summer_db inviting) refl inviting_succeeds

-- Bob invites Eve, who has no account.
abbrev writing : Result (ℕ × Db)
writing = invite_by_email plain_python 12 bob "eve@example.org" summer_db

writing_succeeds : writing ≡ ok (60, rows_of summer_db writing)
unfolding strip invite_by_email require_leader require_team_editable require_registration_open
    is_team_organizer is_registration_open slots_used
writing_succeeds = refl

invite_by_email_slots_example :
    (slots_used 12 (rows_of summer_db writing) ≡ slots_used 12 summer_db + 1)
    × (slots_used 12 (rows_of summer_db writing) ≤ 3)
invite_by_email_slots_example =
    invite_by_email_slots plain_python 12 60 bob "eve@example.org" forming_team summer_db
      (rows_of summer_db writing) refl writing_succeeds
