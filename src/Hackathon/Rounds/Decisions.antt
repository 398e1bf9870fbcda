-- ===== src/Hackathon/Rounds/Decisions.antt =====
-- `RoundService` of apps/hackathons/services.py: deciding on the entries of a round.
pub mod Limit
pub mod Selection
use srkrcc_main_application.Common.{
  ℕ, ◌+◌, String, Bool, true, false, not, ◌&&◌, Option, none, some, List, [], ◌∷◌, ◌==◌, ltb, map,
  count, exists, select, update, append, length, if◌then◌else◌,
}
use srkrcc_main_application.Hackathon.Monad.{
  Result, ok, err, Error, invalid_status, nothing_selected, already_published,
}
use srkrcc_main_application.Hackathon.Rounds.{
  Rule, Value, EntryStatus, entry_pending, shortlisted, rejected, Entry, Effect, audit_decision,
  audit_publishing, audit_auto_shortlist, notify_changed, celebrate_shortlisted,
  celebrate_withdrawn, Round, evaluate_rule,
}

abbrev status_number : EntryStatus → ℕ
status_number entry_pending = 0
status_number shortlisted = 1
status_number rejected = 2

abbrev pub is_status : EntryStatus → EntryStatus → Bool
is_status s t = status_number s == status_number t

-- `team_id in team_ids`
abbrev pub is_in : List ℕ → ℕ → Bool
is_in ids team = exists (λ t. t == team) ids

abbrev pub is_shortlisted_entry : Entry → Bool
is_shortlisted_entry e = is_status e.status shortlisted

-- `already.count() + newly`
abbrev pub shortlist_total : List ℕ → List Entry → ℕ
shortlist_total ids entries =
    count is_shortlisted_entry entries
    + count (λ e. is_in ids e.team && not (is_shortlisted_entry e)) entries

unfoldable pub is_over_limit : Round → EntryStatus → List ℕ → Bool → Bool
is_over_limit round status ids confirmed = elim (round.shortlist_limit) [
  | none ↦ false
  | some limit ↦
      is_status status shortlisted
      && ltb 0 limit
      && not confirmed
      && ltb limit (shortlist_total ids round.entries)
]

-- A request body: `feedback` and `admin_notes` may be left out.
pub record Decision : Type 0 where
  pub actor : ℕ
  pub now : ℕ
  pub feedback : Option String
  pub admin_notes : Option String
  pub confirm_published : Bool
  pub confirm_over_limit : Bool

abbrev or_old : Option String → String → String
or_old none old = old
or_old (some s) old = s

-- `entries.update(**update)`
abbrev pub decided : Decision → EntryStatus → Entry → Entry
decided d status e = record e {
  status = status;
  decided_by = some d.actor;
  decided_at = some d.now;
  feedback = or_old d.feedback e.feedback;
  admin_notes = or_old d.admin_notes e.admin_notes;
}

abbrev pub changed_teams : EntryStatus → List ℕ → List Entry → List ℕ
changed_teams status ids entries =
    map (λ e. e.team) (select (λ e. is_in ids e.team && not (is_status e.status status)) entries)

-- `_notify_result_changed` and the celebration cards, where published results change
abbrev pub result_effects : Bool → EntryStatus → List ℕ → List Effect → List Effect
result_effects false status changed effects = effects
result_effects true status [] effects = effects
result_effects true status (t ∷ ts) effects = append (append effects (notify_changed (t ∷ ts))) (
    if is_status status shortlisted
    then celebrate_shortlisted (t ∷ ts)
    else celebrate_withdrawn (t ∷ ts))

unfoldable pub record_decision : Decision → List ℕ → EntryStatus → Round → Round
record_decision d ids status round = record round {
  entries = update (λ e. is_in ids e.team) (decided d status) round.entries;
  effects =
      result_effects round.results_published status (changed_teams status ids round.entries)
        (append round.effects (audit_decision d.actor status ids));
}

-- `RoundService.decide`; a status that is none of the choices is `none`.
unfoldable pub decide : Decision → List ℕ → Option EntryStatus → Round → Result (ℕ × Round)
decide d ids none round = err invalid_status
decide d ids (some status) round =
    if is_over_limit round status ids d.confirm_over_limit
    then err srkrcc_main_application.Hackathon.Monad.shortlist_limit
    else if round.results_published && not d.confirm_published
    then err srkrcc_main_application.Hackathon.Monad.results_published
    else ok (count (λ e. is_in ids e.team) round.entries, record_decision d ids status round)

-- `RoundService.publish_results`, without the announcements that may follow
unfoldable pub publish_results : ℕ → Round → Result Round
publish_results actor round =
    if round.results_published
    then err already_published
    else ok (record round {
      results_published = true;
      effects =
          append (append round.effects (audit_publishing actor true))
            (celebrate_shortlisted (map (λ e. e.team) (select is_shortlisted_entry round.entries)));
    })

-- `RoundService.unpublish_results`, which withdraws the cards of every team of the round
unfoldable pub unpublish_results : ℕ → Round → Round
unpublish_results actor round = record round {
  results_published = false;
  effects =
      append (append round.effects (audit_publishing actor false))
        (celebrate_withdrawn (map (λ e. e.team) round.entries));
}

-- What `auto_shortlist` returns.
pub record Preview : Type 0 where
  pub chosen : List Entry
  pub others : List Entry
  pub over_limit : Bool
  pub applied : Bool

abbrev pub exceeds : Option ℕ → ℕ → Bool
exceeds none n = false
exceeds (some limit) n = ltb 0 limit && ltb limit n

abbrev pub chosen_of : List (Entry × Bool) → List Entry
chosen_of rows = map (λ r. r.0) (select (λ r. r.1) rows)

abbrev pub others_of : List (Entry × Bool) → List Entry
others_of rows = map (λ r. r.0) (select (λ r. not r.1) rows)

abbrev pub preview : Round → List (Entry × Bool) → Bool → Preview
preview round rows applied = record {
  chosen = chosen_of rows;
  others = others_of rows;
  over_limit = exceeds round.shortlist_limit (length (chosen_of rows));
  applied = applied;
}

abbrev pub undecided_of : List (Entry × Bool) → List ℕ
undecided_of rows =
    map (λ e. e.team) (select (λ e. is_status e.status entry_pending) (others_of rows))

-- `if undecided: RoundService.decide(…, EntryStatus.REJECTED, …)`
unfoldable pub reject_undecided : Decision → List ℕ → Round → Result Round
reject_undecided d [] round = ok round
reject_undecided d (t ∷ ts) round = elim (decide d (t ∷ ts) (some rejected) round) [
  | err e ↦ err e
  | ok (n, round') ↦ ok round'
]

-- The part of `auto_shortlist` that changes the rows.
unfoldable pub apply_rule : Decision → Bool → List (Entry × Bool) → Round → Result Round
apply_rule d reject_rest rows round =
    elim (decide d (map (λ e. e.team) (chosen_of rows)) (some shortlisted) round) [
      | err e ↦ err e
      | ok (n, round') ↦
          if reject_rest then reject_undecided d (undecided_of rows) round' else ok round'
    ]

unfoldable pub auto_shortlist :
    Decision → Rule → Value → Bool → Bool → Round → Result (Preview × Round)
auto_shortlist d rule value reject_rest is_applied round = elim (evaluate_rule round rule value) [
  | err e ↦ err e
  | ok rows ↦
      if not is_applied then ok (preview round rows false, round) else elim (chosen_of rows) [
        | [] ↦ err nothing_selected
        | e ∷ es ↦
            elim (apply_rule (record d { feedback = none; admin_notes = none }) reject_rest rows
              round) [
                | err x ↦ err x
                | ok round' ↦ ok (
                  preview round rows true,
                  record round' { effects = append round'.effects (audit_auto_shortlist d.actor) },
                )
              ]
      ]
]
