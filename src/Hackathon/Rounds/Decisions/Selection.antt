-- ===== src/Hackathon/Rounds/Decisions/Selection.antt =====
-- What `auto_shortlist` decides for each entry.
use mathlib.Core.List.{Memᴰ}
use mathlib.Core.List.Memᴰ.{head, tail}
use srkrcc_main_application.Common.{
  ℕ, ◌-◌, ◌/◌, ◌≡◌, refl, sym, ap, subst, ◌∙◌, Bool, true, false, not, ◌&&◌, none, some, List, [],
  ◌∷◌, ◌==◌, map, exists, select, update, arith, if◌then◌else◌, Bool-cases, inl, inr, ==_refl,
  ==→eq,
}
use srkrcc_main_application.Common.Rows.Laws.{Distinct}
use srkrcc_main_application.Hackathon.Monad.{ok}
use srkrcc_main_application.Hackathon.Outcome.{Result-cases}
use srkrcc_main_application.Hackathon.Rounds.{
  Rule, Kind, top, minimum, flagged, kind_of, Value, not_a_number, below_zero, not_finite,
  hundredths, EntryStatus, entry_pending, shortlisted, rejected, Entry, Round, evaluate_rule,
  evaluate_kind, select_top, flag, metric, is_at_least, score_at, sort_scores, scores,
}
use srkrcc_main_application.Hackathon.Rounds.Shortlist.{map_same}
use srkrcc_main_application.Hackathon.Rounds.Decisions.{
  is_status, is_in, Decision, decided, record_decision, decide, Preview, chosen_of, undecided_of,
  reject_undecided, apply_rule, auto_shortlist,
}
use srkrcc_main_application.Hackathon.Rounds.Decisions.Limit.{auto_shortlist_lem}

abbrev pub team_key : Entry → ℕ
team_key e = e.team

abbrev teams_of : (Entry → Bool) → List Entry → List ℕ
teams_of g es = map team_key (select g es)

teams_absent :
    (g : Entry → Bool) (t : ℕ) (es : List Entry)
    → exists (λ e. e.team == t) es ≡ false
    → is_in (teams_of g es) t ≡ false
teams_absent g t [] h = refl
teams_absent g t (e ∷ es) h = ground (arith, teams_absent g t es)

team_listed : (e : Entry) (es : List Entry) → Memᴰ e es → exists (λ x. x.team == e.team) es ≡ true
team_listed e [] m = elim m [ ]
team_listed e (x ∷ es) (head h) = rw h (ground (arith, ==_refl x.team))
team_listed e (x ∷ es) (tail m) = ground (arith, team_listed e es m)

-- A team that has one entry is in the list of the chosen ones where that entry is chosen.
is_in-teams_of :
    (g : Entry → Bool) (e : Entry) (es : List Entry)
    → Distinct team_key es
    → Memᴰ e es
    → is_in (teams_of g es) e.team ≡ g e
is_in-teams_of g e [] d m = elim m [ ]
is_in-teams_of g e (x ∷ es) d (head h) =
    rw h (ground (arith, teams_absent g x.team es d.0, ==_refl x.team))
is_in-teams_of g e (x ∷ es) d (tail m) =
    let rest = is_in-teams_of g e es d.1 m in
    let here : exists (λ y. y.team == x.team) es ≡ false = d.0 in
    let there = team_listed e es m in
    elim (Bool-cases (x.team == e.team)) [
      | inl k ↦ absurd (
          ground (
            arith,
            there,
            subst (λ t. exists (λ y. y.team == t) es ≡ false) (==→eq x.team e.team k) here,
          ))
      | inr k ↦ ground (arith, rest, k)
    ]

-- The status of an entry after the rule selected it, or not.
abbrev pub outcome : Bool → Bool → EntryStatus → EntryStatus
outcome reject_rest true status = shortlisted
outcome reject_rest false status =
    if reject_rest && is_status status entry_pending then rejected else status

abbrev rows_by : (Entry → Bool) → List Entry → List (Entry × Bool)
rows_by f es = map (λ e. (e, f e)) es

chosen_of-rows_by : (f : Entry → Bool) (es : List Entry) → chosen_of (rows_by f es) ≡ select f es
chosen_of-rows_by f [] = refl
chosen_of-rows_by f (e ∷ es) = ground (arith, chosen_of-rows_by f es)

undecided_of-rows_by :
    (f : Entry → Bool) (es : List Entry)
    → undecided_of (rows_by f es) ≡ teams_of (λ e. not (f e) && is_status e.status entry_pending) es
undecided_of-rows_by f [] = refl
undecided_of-rows_by f (e ∷ es) = ground (arith, undecided_of-rows_by f es)

decide_entries_lem :
    (d : Decision) (ids : List ℕ) (s : EntryStatus) (round round' : Round) (n : ℕ)
    → decide d ids (some s) round ≡ ok (n, round')
    → round'.entries ≡ update (λ e. is_in ids e.team) (decided d s) round.entries
unfolding decide record_decision
decide_entries_lem d ids s round round' n h = ground (arith, h)

update_none : (f : Entry → Entry) (es : List Entry) → es ≡ update (λ e. is_in [] e.team) f es
update_none f [] = refl
update_none f (e ∷ es) = ap (λ xs. e ∷ xs) (update_none f es)

reject_undecided_lem :
    (d : Decision) (ids : List ℕ) (round round' : Round)
    → reject_undecided d ids round ≡ ok round'
    → round'.entries ≡ update (λ e. is_in ids e.team) (decided d rejected) round.entries
unfolding reject_undecided
reject_undecided_lem d [] round round' h =
    let same : round' ≡ round = ground (arith, h) in
    ap (λ r. r.entries) same ∙ update_none (decided d rejected) round.entries
reject_undecided_lem d (t ∷ ts) round round' h =
    elim (Result-cases (decide d (t ∷ ts) (some rejected) round)) [
      | inl (x, e) ↦ absurd (ground (arith, e, h))
      | inr ((n, round1), e) ↦
          let same : round' ≡ round1 = ground (arith, e, h) in
          ap (λ r. r.entries) same ∙ decide_entries_lem d (t ∷ ts) rejected round round1 n e
    ]

statuses_once :
    (d : Decision) (ids : List ℕ) (es : List Entry)
    → map (λ e. e.status) (update (λ e. is_in ids e.team) (decided d shortlisted) es)
      ≡ map (λ e. if is_in ids e.team then shortlisted else e.status) es
statuses_once d ids [] = refl
statuses_once d ids (e ∷ es) = ground (arith, statuses_once d ids es)

statuses_twice :
    (d : Decision) (ids others : List ℕ) (es : List Entry)
    → map
        (λ e. e.status)
        (update
          (λ e. is_in others e.team)
          (decided d rejected)
          (update (λ e. is_in ids e.team) (decided d shortlisted) es))
      ≡ map
          (λ e.
            if is_in others e.team
            then rejected
            else if is_in ids e.team
            then shortlisted
            else e.status)
          es
statuses_twice d ids others [] = refl
statuses_twice d ids others (e ∷ es) = ground (arith, statuses_twice d ids others es)

apply_rule_statuses :
    (d : Decision) (reject_rest : Bool) (f : Entry → Bool) (round round' : Round)
    → Distinct team_key round.entries
    → apply_rule d reject_rest (rows_by f round.entries) round ≡ ok round'
    → map (λ e. e.status) round'.entries
      ≡ map (λ e. outcome reject_rest (f e) e.status) round.entries
unfolding apply_rule
apply_rule_statuses d reject_rest f round round' u h =
    let es = round.entries in
    let ids = map (λ e. e.team) (chosen_of (rows_by f es)) in
    let others = undecided_of (rows_by f es) in
    let listed : (e : Entry) → Memᴰ e es → is_in ids e.team ≡ f e = λ e m.
      ap (λ xs. is_in (map (λ e. e.team) xs) e.team) (chosen_of-rows_by f es)
      ∙ is_in-teams_of f e es u m in
    elim (Result-cases (decide d ids (some shortlisted) round)) [
      | inl (x, e) ↦ absurd (ground (arith, e, h))
      | inr ((n, round1), e) ↦
          let first_entries = decide_entries_lem d ids shortlisted round round1 n e in
          elim (Bool-cases reject_rest) [
            | inr y ↦
                let same : round' ≡ round1 = ground (arith, e, h, y) in
                ap (λ r. map (λ e. e.status) r.entries) same
                ∙ ap (map (λ e. e.status)) first_entries
                ∙ statuses_once d ids es
                ∙ map_same (λ e. if is_in ids e.team then shortlisted else e.status)
                    (λ e. outcome reject_rest (f e) e.status) es
                    (λ e m. ground (arith, y, listed e m))
            | inl y ↦
                let last : reject_undecided d others round1 ≡ ok round' = ground (arith, e, h, y) in
                let undecided : (e : Entry)
                    → Memᴰ e es
                    → is_in others e.team ≡ (not (f e) && is_status e.status entry_pending) =
                  λ e m.
                    ap (λ xs. is_in xs e.team) (undecided_of-rows_by f es)
                    ∙ is_in-teams_of (λ e. not (f e) && is_status e.status entry_pending) e es u
                        m in
                ap (map (λ e. e.status)) (reject_undecided_lem d others round1 round' last)
                ∙ ap
                    (λ xs.
                      map (λ e. e.status)
                        (update (λ e. is_in others e.team) (decided d rejected) xs))
                    first_entries
                ∙ statuses_twice d ids others es
                ∙ map_same
                    (λ e.
                      if is_in others e.team
                      then rejected
                      else if is_in ids e.team
                      then shortlisted
                      else e.status)
                    (λ e. outcome reject_rest (f e) e.status) es
                    (λ e m. ground (arith, y, listed e m, undecided e m))
          ]
    ]

evaluate_kind_rows :
    (round : Round) (rule : Rule) (kind : Kind) (value : Value) (rows : List (Entry × Bool))
    → evaluate_kind round rule kind value ≡ ok rows
    → (f : Entry → Bool) × (rows ≡ rows_by f round.entries)
unfolding evaluate_kind select_top
evaluate_kind_rows round rule flagged value rows h = (flag round rule, ground (arith, h))
evaluate_kind_rows round rule minimum not_a_number rows h = absurd (ground (arith, h))
evaluate_kind_rows round rule minimum below_zero rows h = absurd (ground (arith, h))
evaluate_kind_rows round rule minimum not_finite rows h = absurd (ground (arith, h))
evaluate_kind_rows round rule minimum (hundredths n) rows h =
    (λ e. is_at_least (metric rule e) (some n), ground (arith, h))
evaluate_kind_rows round rule top not_a_number rows h = absurd (ground (arith, h))
evaluate_kind_rows round rule top below_zero rows h = absurd (ground (arith, h))
evaluate_kind_rows round rule top not_finite rows h = absurd (ground (arith, h))
evaluate_kind_rows round rule top (hundredths n) rows h =
    let cutoff = score_at (n / 100 - 1) (sort_scores (scores (map (metric rule) round.entries))) in
    (λ e. is_at_least (metric rule e) cutoff, ground (arith, h))

rows_outcomes :
    (reject_rest : Bool) (f : Entry → Bool) (es : List Entry)
    → map (λ e. outcome reject_rest (f e) e.status) es
      ≡ map (λ r. outcome reject_rest r.1 r.0.status) (rows_by f es)
rows_outcomes reject_rest f [] = refl
rows_outcomes reject_rest f (e ∷ es) =
    ap (λ ss. outcome reject_rest (f e) e.status ∷ ss) (rows_outcomes reject_rest f es)

-- Each row of `evaluate_rule` is an entry of the round, in their order.
evaluate_rule_rows :
    (round : Round) (rule : Rule) (value : Value) (rows : List (Entry × Bool))
    → evaluate_rule round rule value ≡ ok rows
    → (f : Entry → Bool) × (rows ≡ rows_by f round.entries)
unfolding evaluate_rule
evaluate_rule_rows round rule value rows h =
    let kind : evaluate_kind round rule (kind_of rule) value ≡ ok rows = ground (arith, h) in
    evaluate_kind_rows round rule (kind_of rule) value rows kind

-- Where it applies a rule, `auto_shortlist` shortlists just the entries that the rule selects; of the
-- others it rejects, where it is asked to, the ones that are not decided yet, and leaves the rest as
-- they were. Each team has one entry in the round.
pub auto_shortlist_statuses :
    (d : Decision) (rule : Rule) (value : Value) (reject_rest : Bool) (round round' : Round)
    (p : Preview) (rows : List (Entry × Bool))
    → Distinct team_key round.entries
    → evaluate_rule round rule value ≡ ok rows
    → auto_shortlist d rule value reject_rest true round ≡ ok (p, round')
    → map (λ e. e.status) round'.entries ≡ map (λ r. outcome reject_rest r.1 r.0.status) rows
auto_shortlist_statuses d rule value reject_rest round round' p rows u v h =
    elim (auto_shortlist_lem d rule value reject_rest true round round' p h) [
      | inl (n, same) ↦ absurd (ground (arith, n))
      | inr (rows', round1, e, f, same, limit) ↦
          let (g, by) = evaluate_rule_rows round rule value rows v in
          let equal : rows' ≡ rows_by g round.entries = ground (arith, e, v) ∙ by in
          let d' = record d { feedback = none; admin_notes = none } in
          let applied = subst (λ xs. apply_rule d' reject_rest xs round ≡ ok round1) equal f in
          ap (map (λ e. e.status)) same
          ∙ apply_rule_statuses d' reject_rest g round round1 u applied
          ∙ rows_outcomes reject_rest g round.entries
          ∙ ap (map (λ r. outcome reject_rest r.1 r.0.status)) (sym by)
    ]
