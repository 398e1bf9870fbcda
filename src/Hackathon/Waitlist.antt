-- ===== src/Hackathon/Waitlist.antt =====
-- `WaitlistService` of apps/hackathons/services.py: placing queued teams, the oldest first.
pub mod Capacity
pub mod Fairness
pub mod Order
pub mod Precedence
use srkrcc_main_application.Common.{
  ℕ, Bool, false, not, ◌&&◌, ◌||◌, none, some, List, [], ◌∷◌, ◌==◌, ltb, is_at, exists, first,
  select, update, append, map, if◌then◌else◌,
}
use srkrcc_main_application.Hackathon.Model.{Team, TeamPayment, is_active}
use srkrcc_main_application.Hackathon.Monad.{
  Db, audit, celebrate, notify, promoted_team, waitlist_promoted,
}
use srkrcc_main_application.Hackathon.Store.{size}
use srkrcc_main_application.Hackathon.Registration.Capacity.{teams_full, participants_would_exceed}

-- `Coalesce('payment__reviewed_at', 'created_at')`
abbrev pub queued_at : List TeamPayment → Team → ℕ
queued_at payments team = elim (first (λ p. is_at p.team team.pk) payments) [
  | none ↦ team.created_at
  | some p ↦ elim (p.reviewed_at) [ none ↦ team.created_at | some at ↦ at ]
]

-- `order_by('queued_at', 'id')`
abbrev pub is_earlier : List TeamPayment → Team → Team → Bool
is_earlier payments a b =
    ltb (queued_at payments a) (queued_at payments b)
    || (queued_at payments a == queued_at payments b && ltb a.pk b.pk)

-- The database sorts; primary keys are unique, so that every sort by this order gives the same list.
unfoldable pub insert_team : List TeamPayment → Team → List Team → List Team
insert_team payments a [] = a ∷ []
insert_team payments a (b ∷ ts) =
    if is_earlier payments a b then a ∷ b ∷ ts else b ∷ insert_team payments a ts

unfoldable pub sort_teams : List TeamPayment → List Team → List Team
sort_teams payments [] = []
sort_teams payments (a ∷ ts) = insert_team payments a (sort_teams payments ts)

abbrev pub is_queued : Team → Bool
is_queued t = t.is_waitlisted && is_active t.status

unfoldable pub waitlist : Db → List Team
unfolding sort_teams insert_team
waitlist db = sort_teams db.payments (select is_queued db.teams)

-- One round of the loop that places a team.
unfoldable pub place : Team → Db → Db
place team db = record db {
  teams = update (λ t. t.pk == team.pk) (λ t. record t { is_waitlisted = false }) db.teams;
  effects =
      append
        (append (append db.effects (audit none promoted_team team.pk))
          (celebrate waitlist_promoted team.pk))
        (notify (map (λ m. m.user) (select (λ m. m.team == team.pk) db.members)) team.pk);
}

unfoldable pub promote_from : List Team → Db → Db
promote_from [] db = db
promote_from (team ∷ queue) db =
    let skip = promote_from queue db in
    let placed = promote_from queue (place team db) in
    if teams_full db.hackathon db.teams
    then db
    else if participants_would_exceed db.hackathon db.teams db.members (size team.pk db.members)
    then skip
    else placed

-- `WaitlistService.promote`
unfoldable pub promote_waitlist : Db → Db
unfolding promote_from
promote_waitlist db =
    if not db.hackathon.waitlist_enabled && not (exists (λ t. t.is_waitlisted) db.teams)
    then db
    else promote_from (waitlist db) db
