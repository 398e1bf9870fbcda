-- ===== src/Hackathon/Team/Slots.antt =====
-- `TeamService.invite` and `invite_by_email` of apps/hackathons/services.py: the slots of a team.
use srkrcc_main_application.Common.{
  strip, ℕ, ◌+◌, ◌≡◌, ◌≤◌, String, ◌&&◌, none, some, ◌==◌, arith, first, str_eq, if◌then◌else◌,
  Python, Option-cases, inl, inr,
}
use srkrcc_main_application.Common.Rows.Laws.{count-append}
use srkrcc_main_application.Hackathon.Model.{
  User, Team, TeamInvite, invite_pending, email_pending, is_pending_invite, is_pending_email,
}
use srkrcc_main_application.Hackathon.Monad.{Db, ok}
use srkrcc_main_application.Hackathon.Outcome.{Result-cases}
use srkrcc_main_application.Hackathon.Team.{
  require_registration_open, require_leader, require_team_editable, slots_used,
}
use srkrcc_main_application.Hackathon.Team.Invites.{
  same_email, can_invite, create_invite, invite, invite_by_email,
}

require_team_editable_reads :
    (t : Team) (u : User) (x : Unit {0}) (db db' : Db)
    → require_team_editable t u db ≡ ok (x, db')
    → db' ≡ db
unfolding require_team_editable require_registration_open
require_team_editable_reads t u x db db' h = ground arith

abbrev new_invite : ℕ → ℕ → ℕ → ℕ → TeamInvite
new_invite pk team user by = record {
  pk = pk;
  team = team;
  invited_user = user;
  invited_by = by;
  status = invite_pending;
  responded_at = none;
}

create_invite_slots :
    (team user by k : ℕ) (db db' : Db)
    → create_invite team user by db ≡ ok (k, db')
    → (slots_used team db' ≡ slots_used team db + 1) × (db'.hackathon ≡ db.hackathon)
unfolding create_invite slots_used
create_invite_slots team user by k db db' h = ground (
  arith,
  count-append (λ i. i.team == team && is_pending_invite i.status) db.invites
      (new_invite db.next_pk team user by),
)

-- An invite takes one slot of the team: after it, the members and the outstanding invites by account
-- and by email are one more than before, and together at most `max_team_size`.
pub invite_slots :
    (py : Python) (team_pk k : ℕ) (actor : User) (email : String) (t : Team) (db db' : Db)
    → first (λ x. x.pk == team_pk) db.teams ≡ some t
    → invite py team_pk actor email db ≡ ok (k, db')
    → (slots_used t.pk db' ≡ slots_used t.pk db + 1)
      × (slots_used t.pk db' ≤ db.hackathon.max_team_size)
unfolding invite require_leader can_invite slots_used
invite_slots py team_pk k actor email t db db' found h =
    elim (Result-cases (require_team_editable t actor db)) [
      | inl (e, p) ↦ absurd (ground arith)
      | inr ((x, s), p) ↦
          let same = require_team_editable_reads t actor x db s p in
          elim (Option-cases (
            if str_eq (strip email) ""
            then none
            else first (same_email py (strip email)) db.users)) [
              | inl o ↦ absurd (ground arith)
              | inr (u, o) ↦ elim (Result-cases (create_invite t.pk u.pk actor.pk db)) [
                | inl (e, q) ↦ absurd (ground arith)
                | inr ((j, r), q) ↦ ground (arith, create_invite_slots t.pk u.pk actor.pk j db r q)
              ]
            ]
    ]

-- An invite by email takes one slot of the team too, under the same bound.
pub invite_by_email_slots :
    (py : Python) (team_pk k : ℕ) (actor : User) (email : String) (t : Team) (db db' : Db)
    → first (λ x. x.pk == team_pk) db.teams ≡ some t
    → invite_by_email py team_pk actor email db ≡ ok (k, db')
    → (slots_used t.pk db' ≡ slots_used t.pk db + 1)
      × (slots_used t.pk db' ≤ db.hackathon.max_team_size)
unfolding invite_by_email require_leader slots_used
invite_by_email_slots py team_pk k actor email t db db' found h =
    elim (Result-cases (require_team_editable t actor db)) [
      | inl (e, p) ↦ absurd (ground arith)
      | inr ((x, s), p) ↦
          let same = require_team_editable_reads t actor x db s p in
          ground (
            arith,
            same,
            count-append (λ i. i.team == t.pk && is_pending_email i.status) db.email_invites
                (record {
                  pk = db.next_pk;
                  team = t.pk;
                  email = py.lower (strip email);
                  invited_by = actor.pk;
                  status = email_pending;
                  resolved_at = none;
                }),
          )
    ]
