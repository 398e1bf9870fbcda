-- ===== src/Hackathon/Rounds/Decisions/Limit.antt =====
-- The shortlist limit of a round.
use srkrcc_main_application.Common.{
  ℕ, ◌≤◌, ◌≡◌, refl, Bool, true, false, not, Option, none, some, List, [], ◌∷◌, map, count, every,
  subst, update, arith, Bool-cases, inl, inr, ◌⊎◌,
}
use srkrcc_main_application.Hackathon.Monad.{Result, ok, err}
use srkrcc_main_application.Hackathon.Outcome.{Result-cases}
use srkrcc_main_application.Hackathon.Rounds.{
  Rule, Value, EntryStatus, entry_pending, shortlisted, rejected, Entry, Round, evaluate_rule,
}
use srkrcc_main_application.Hackathon.Rounds.Decisions.{
  is_status, is_in, is_shortlisted_entry, shortlist_total, is_over_limit, Decision, decided,
  record_decision, decide, publish_results, unpublish_results, Preview, exceeds, chosen_of,
  undecided_of, reject_undecided, apply_rule, auto_shortlist,
}

-- Whether no more entries are shortlisted than the round is meant to shortlist.
abbrev pub is_within_limit : Round → Bool
is_within_limit round =
    not (exceeds round.shortlist_limit (count is_shortlisted_entry round.entries))

count-shortlisted :
    (d : Decision) (ids : List ℕ) (es : List Entry)
    → count is_shortlisted_entry (update (λ e. is_in ids e.team) (decided d shortlisted) es)
      ≡ shortlist_total ids es
count-shortlisted d ids [] = refl
count-shortlisted d ids (e ∷ es) = ground (arith, count-shortlisted d ids es)

count-others :
    (d : Decision) (ids : List ℕ) (s : EntryStatus) (es : List Entry)
    → is_status s shortlisted ≡ false
    → count is_shortlisted_entry (update (λ e. is_in ids e.team) (decided d s) es)
      ≤ count is_shortlisted_entry es
count-others d ids s [] h = omega arith
count-others d ids s (e ∷ es) h = ground (arith, count-others d ids s es)

decide-limit :
    (d : Decision) (ids : List ℕ) (status : Option EntryStatus) (round round' : Round) (n : ℕ)
    → d.confirm_over_limit ≡ false
    → is_within_limit round ≡ true
    → decide d ids status round ≡ ok (n, round')
    → is_within_limit round' ≡ true
unfolding decide is_over_limit record_decision
decide-limit d ids none round round' n c w h = absurd (ground (arith, h))
decide-limit d ids (some entry_pending) round round' n c w h =
    ground (arith, c, w, h, count-others d ids entry_pending round.entries refl)
decide-limit d ids (some rejected) round round' n c w h =
    ground (arith, c, w, h, count-others d ids rejected round.entries refl)
decide-limit d ids (some shortlisted) round round' n c w h =
    ground (arith, c, w, h, count-shortlisted d ids round.entries)

reject_undecided-limit :
    (d : Decision) (ids : List ℕ) (round round' : Round)
    → d.confirm_over_limit ≡ false
    → is_within_limit round ≡ true
    → reject_undecided d ids round ≡ ok round'
    → is_within_limit round' ≡ true
unfolding reject_undecided
reject_undecided-limit d [] round round' c w h = ground (arith, w, h)
reject_undecided-limit d (t ∷ ts) round round' c w h =
    elim (Result-cases (decide d (t ∷ ts) (some rejected) round)) [
      | inl (x, e) ↦ absurd (ground (arith, e, h))
      | inr ((n, round1), e) ↦
          let kept = decide-limit d (t ∷ ts) (some rejected) round round1 n c w e in
          let same : round1 ≡ round' = ground (arith, e, h) in
          subst (λ r. is_within_limit r ≡ true) same kept
    ]

apply_rule-limit :
    (d : Decision) (reject_rest : Bool) (rows : List (Entry × Bool)) (round round' : Round)
    → d.confirm_over_limit ≡ false
    → is_within_limit round ≡ true
    → apply_rule d reject_rest rows round ≡ ok round'
    → is_within_limit round' ≡ true
unfolding apply_rule
apply_rule-limit d reject_rest rows round round' c w h =
    let ids = map (λ e. e.team) (chosen_of rows) in
    elim (Result-cases (decide d ids (some shortlisted) round)) [
      | inl (x, e) ↦ absurd (ground (arith, e, h))
      | inr ((n, round1), e) ↦
          let kept = decide-limit d ids (some shortlisted) round round1 n c w e in
          elim (Bool-cases reject_rest) [
            | inl y ↦
                let last : reject_undecided d (undecided_of rows) round1 ≡ ok round' =
                  ground (arith, e, h, y) in
                reject_undecided-limit d (undecided_of rows) round1 round' c kept last
            | inr y ↦
                let same : round1 ≡ round' = ground (arith, e, h, y) in
                subst (λ r. is_within_limit r ≡ true) same kept
          ]
    ]

-- What `auto_shortlist` does to the rows where it succeeds.
pub auto_shortlist_lem :
    (d : Decision) (rule : Rule) (value : Value) (reject_rest is_applied : Bool)
    (round round' : Round) (p : Preview)
    → auto_shortlist d rule value reject_rest is_applied round ≡ ok (p, round')
    → ((is_applied ≡ false) × (round' ≡ round))
      ⊎ ((rows : List (Entry × Bool)) × (round1 : Round) × (evaluate_rule round rule value
            ≡ ok rows)
          × (apply_rule (record d { feedback = none; admin_notes = none }) reject_rest rows round
              ≡ ok round1)
          × (round'.entries ≡ round1.entries)
          × (round'.shortlist_limit ≡ round1.shortlist_limit))
unfolding auto_shortlist
auto_shortlist_lem d rule value reject_rest is_applied round round' p h =
    elim (Result-cases (evaluate_rule round rule value)) [
      | inl (x, e) ↦ absurd (ground (arith, e, h))
      | inr (rows, e) ↦ elim (Bool-cases is_applied) [
        | inr n ↦ inl (n, ground (arith, e, n, h))
        | inl y ↦
            let d' = record d { feedback = none; admin_notes = none } in
            elim (Result-cases (apply_rule d' reject_rest rows round)) [
              | inl (x, f) ↦ absurd (ground (arith, e, y, f, h))
              | inr (round1, f) ↦
                  inr (rows, round1, e, f, ground (arith, e, y, f, h), ground (arith, e, y, f, h))
            ]
      ]
    ]

-- A request of RoundService on the entries of a round and on its results.
pub data RoundRequest : Type 0 where
  decide_entries : Decision → List ℕ → Option EntryStatus → RoundRequest
  shortlist_by_rule : Decision → Rule → Value → Bool → Bool → RoundRequest
  publish : ℕ → RoundRequest
  unpublish : ℕ → RoundRequest

-- Whether the request does not confirm to go over the limit.
abbrev pub is_unconfirmed : RoundRequest → Bool
is_unconfirmed (decide_entries d ids status) = not d.confirm_over_limit
is_unconfirmed (shortlist_by_rule d rule value reject_rest is_applied) = not d.confirm_over_limit
is_unconfirmed (publish actor) = true
is_unconfirmed (unpublish actor) = true

abbrev after : {A : Type 0} → Result (A × Round) → Round → Round
after (ok (a, round')) round = round'
after (err e) round = round

abbrev after_publishing : Result Round → Round → Round
after_publishing (ok round') round = round'
after_publishing (err e) round = round

unfoldable pub handle_round : RoundRequest → Round → Round
handle_round (decide_entries d ids status) round = after (decide d ids status round) round
handle_round (shortlist_by_rule d rule value reject_rest is_applied) round =
    after (auto_shortlist d rule value reject_rest is_applied round) round
handle_round (publish actor) round = after_publishing (publish_results actor round) round
handle_round (unpublish actor) round = unpublish_results actor round

unfoldable pub handle_rounds : List RoundRequest → Round → Round
handle_rounds [] round = round
handle_rounds (r ∷ rs) round = handle_rounds rs (handle_round r round)

handle_round-limit :
    (r : RoundRequest) (round : Round)
    → is_unconfirmed r ≡ true
    → is_within_limit round ≡ true
    → is_within_limit (handle_round r round) ≡ true
unfolding handle_round publish_results unpublish_results
handle_round-limit (decide_entries d ids status) round c w =
    elim (Result-cases (decide d ids status round)) [
      | inl (x, e) ↦ rw e w
      | inr ((n, round'), e) ↦
          rw e (decide-limit d ids status round round' n (ground (arith, c)) w e)
    ]
handle_round-limit (shortlist_by_rule d rule value reject_rest is_applied) round c w =
    elim (Result-cases (auto_shortlist d rule value reject_rest is_applied round)) [
      | inl (x, e) ↦ rw e w
      | inr ((p, round'), e) ↦
          elim (auto_shortlist_lem d rule value reject_rest is_applied round round' p e) [
            | inl (n, same) ↦ rw e (rw same w)
            | inr (rows, round1, f, g, same, limit) ↦
                let kept =
                  apply_rule-limit (record d { feedback = none; admin_notes = none }) reject_rest
                    rows round round1 (ground (arith, c)) w g in
                rw e (rw same (rw limit kept))
          ]
    ]
handle_round-limit (publish actor) round c w = ground (arith, w)
handle_round-limit (unpublish actor) round c w = w

-- A round that shortlists no more teams than it is meant to still does so after any sequence of deciding
-- on entries, shortlisting by a rule, publishing and unpublishing its results, as long as none of these
-- requests confirms to go over the limit, and the limit itself is not edited in between.
pub handle_rounds-limit :
    (rs : List RoundRequest) (round : Round)
    → every is_unconfirmed rs ≡ true
    → is_within_limit round ≡ true
    → is_within_limit (handle_rounds rs round) ≡ true
unfolding handle_rounds
handle_rounds-limit [] round c w = w
handle_rounds-limit (r ∷ rs) round c w =
    handle_rounds-limit rs (handle_round r round) (ground (arith, c))
      (handle_round-limit r round (ground (arith, c)) w)
