-- ===== src/Hackathon/Rounds.antt =====
-- apps/hackathons/round_rules.py: which teams of a round a rule selects.
pub mod Shortlist
pub mod Decisions
mod Tests
use srkrcc_main_application.Common.{
  ℕ, zero, String, suc, ◌-◌, ◌/◌, ◌%◌, Bool, true, false, not, ◌&&◌, ◌||◌, Option, none, some, List,
  [], ◌∷◌, ◌==◌, leb, ltb, map, count, exists, is_some, length, if◌then◌else◌,
}
use srkrcc_main_application.Hackathon.Monad.{
  Result, ok, err, Error, invalid, evaluation_not_closed, uncaught,
}

pub data Rule : Type 0 where
  project_score_top project_score_min idea_score_top idea_score_min idea_approved : Rule
  has_project round_score_top round_score_min checked_in all_checked_in : Rule

-- `TOP`, `MIN`, `FLAG`
pub data Kind : Type 0 where
  top minimum flagged : Kind

-- `RULES`
abbrev pub kind_of : Rule → Kind
kind_of project_score_top = top
kind_of project_score_min = minimum
kind_of idea_score_top = top
kind_of idea_score_min = minimum
kind_of idea_approved = flagged
kind_of has_project = flagged
kind_of round_score_top = top
kind_of round_score_min = minimum
kind_of checked_in = flagged
kind_of all_checked_in = flagged

-- `rule.startswith('ROUND_SCORE')`
abbrev pub is_round_score : Rule → Bool
is_round_score round_score_top = true
is_round_score round_score_min = true
is_round_score _ = false

-- The score of something that is reviewed, in hundredths of a point: the program rounds scores to two
-- decimals.
pub record Reviewed : Type 0 where
  pub score : ℕ
  pub review_count : ℕ

pub data EntryStatus : Type 0 where
  entry_pending shortlisted rejected : EntryStatus

-- A `RoundEntry` with what `_metric` reads of its team; `idea` also tells whether it is approved.
pub record Entry : Type 0 where
  pub pk : ℕ
  pub team : ℕ
  pub reviewed : Reviewed
  pub submission : Option Reviewed
  pub idea : Option (Reviewed × Bool)
  pub status : EntryStatus
  pub decided_by : Option ℕ
  pub decided_at : Option ℕ
  pub feedback : String
  pub admin_notes : String

-- What a decision leaves for the world outside the rows: an audit record with the teams that it names,
-- emails and cards for the teams whose status changed.
pub data Effect : Type 0 where
  audit_decision : ℕ → EntryStatus → List ℕ → Effect
  audit_auto_shortlist : ℕ → Effect
  audit_publishing : ℕ → Bool → Effect
  notify_changed : List ℕ → Effect
  celebrate_shortlisted : List ℕ → Effect
  celebrate_withdrawn : List ℕ → Effect

pub record Round : Type 0 where
  pub shortlist_limit : Option ℕ
  pub results_published : Bool
  pub is_judged : Bool  -- `evaluation_mode == JUDGED`
  pub is_closed : Bool  -- `evaluation_status == CLOSED`
  pub entries : List Entry  -- by the name of the team
  pub members : List ℕ  -- the team of each `TeamMember` of the hackathon
  pub arrivals : List ℕ  -- the team of each check-in of the main session
  pub effects : List Effect

-- `x.score if x.review_count else None`
abbrev pub score_of : Reviewed → Option ℕ
score_of r = if ltb 0 r.review_count then some r.score else none

abbrev pub project_metric : Entry → Option ℕ
project_metric e = elim (e.submission) [ none ↦ none | some r ↦ score_of r ]

abbrev pub idea_metric : Entry → Option ℕ
idea_metric e = elim (e.idea) [ none ↦ none | some (r, approved) ↦ score_of r ]

-- The second component of `_metric`.
unfoldable pub metric : Rule → Entry → Option ℕ
metric project_score_top e = project_metric e
metric project_score_min e = project_metric e
metric idea_score_top e = idea_metric e
metric idea_score_min e = idea_metric e
metric idea_approved e = none
metric has_project e = none
metric round_score_top e = score_of e.reviewed
metric round_score_min e = score_of e.reviewed
metric checked_in e = none
metric all_checked_in e = none

abbrev pub is_approved : Option (Reviewed × Bool) → Bool
is_approved none = false
is_approved (some (r, approved)) = approved

-- `_fully_checked_in_teams`
unfoldable pub is_fully_checked_in : Round → ℕ → Bool
is_fully_checked_in round team =
    exists (λ t. t == team) round.members
    && leb (count (λ t. t == team) round.members) (count (λ t. t == team) round.arrivals)

-- The first component of `_metric`, for the rules of kind `FLAG`.
unfoldable pub flag : Round → Rule → Entry → Bool
flag round idea_approved e = is_approved e.idea
flag round has_project e = is_some e.submission
flag round checked_in e = exists (λ t. t == e.team) round.arrivals
flag round all_checked_in e = is_fully_checked_in round e.team
flag round project_score_top e = false
flag round project_score_min e = false
flag round idea_score_top e = false
flag round idea_score_min e = false
flag round round_score_top e = false
flag round round_score_min e = false

-- `value`, as `float` reads it: in hundredths; `not_finite` is infinity or no number at all ("nan").
pub data Value : Type 0 where
  not_a_number below_zero not_finite : Value
  hundredths : ℕ → Value

-- `sorted(…, reverse=True)`
abbrev pub insert_score : ℕ → List ℕ → List ℕ
insert_score x [] = x ∷ []
insert_score x (y ∷ ys) = if leb y x then x ∷ y ∷ ys else y ∷ insert_score x ys

unfoldable pub sort_scores : List ℕ → List ℕ
sort_scores [] = []
sort_scores (x ∷ xs) = insert_score x (sort_scores xs)

abbrev pub scores : List (Option ℕ) → List ℕ
scores [] = []
scores (none ∷ ms) = scores ms
scores (some m ∷ ms) = m ∷ scores ms

-- `scored[n] if len(scored) > n else (scored[-1] if scored else None)`
unfoldable pub score_at : ℕ → List ℕ → Option ℕ
score_at n [] = none
score_at n (x ∷ []) = some x
score_at zero (x ∷ y ∷ ys) = some x
score_at (suc n) (x ∷ y ∷ ys) = score_at n (y ∷ ys)

abbrev pub is_at_least : Option ℕ → Option ℕ → Bool
is_at_least (some m) (some c) = leb c m
is_at_least none c = false
is_at_least (some m) none = false

-- `evaluate`, with each entry and whether it is selected
unfoldable pub select_top : Rule → ℕ → List Entry → List (Entry × Bool)
select_top rule n entries =
    let cutoff = score_at (n - 1) (sort_scores (scores (map (metric rule) entries))) in
    map (λ e. (e, is_at_least (metric rule e) cutoff)) entries

unfoldable pub evaluate_kind : Round → Rule → Kind → Value → Result (List (Entry × Bool))
evaluate_kind round rule flagged value = ok (map (λ e. (e, flag round rule e)) round.entries)
evaluate_kind round rule minimum not_a_number = err invalid
evaluate_kind round rule minimum below_zero = err invalid
evaluate_kind round rule minimum not_finite = err invalid
evaluate_kind round rule minimum (hundredths n) =
    if leb n 10000
    then ok (map (λ e. (e, is_at_least (metric rule e) (some n))) round.entries)
    else err invalid
evaluate_kind round rule top not_a_number = err invalid
evaluate_kind round rule top below_zero = err invalid
evaluate_kind round rule top not_finite = err uncaught
evaluate_kind round rule top (hundredths n) =
    if ltb n 100 || not (n % 100 == 0)
    then err invalid
    else ok (select_top rule (n / 100) round.entries)

unfoldable pub evaluate_rule : Round → Rule → Value → Result (List (Entry × Bool))
evaluate_rule round rule value =
    if is_round_score rule && not (round.is_judged && round.is_closed)
    then err evaluation_not_closed
    else evaluate_kind round rule (kind_of rule) value
