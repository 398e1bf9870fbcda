-- ===== src/Hackathon/Rounds/Tests.antt =====
-- A round of four teams: two of them share the second best score of their projects.
use srkrcc_main_application.Common.{
  ℕ, ◌≡◌, refl, Bool, true, false, Option, none, some, List, [], ◌∷◌, map, arith, ◌*◌,
}
use srkrcc_main_application.Hackathon.Monad.{ok, err, uncaught}
use srkrcc_main_application.Hackathon.Rounds.{
  project_score_top, Entry, entry_pending, shortlisted, rejected, Effect, audit_decision,
  audit_auto_shortlist, Reviewed, Round, hundredths, not_finite, evaluate_rule, evaluate_kind,
  select_top, metric, sort_scores, score_at,
}
use srkrcc_main_application.Hackathon.Rounds.Shortlist.{is_shortlisted, evaluate_rule_top}
use srkrcc_main_application.Hackathon.Rounds.Decisions.{
  Decision, decided, decide, is_over_limit, record_decision, preview, auto_shortlist, apply_rule,
  reject_undecided,
}
use srkrcc_main_application.Hackathon.Rounds.Decisions.Limit.{
  RoundRequest, decide_entries, shortlist_by_rule, handle_round, handle_rounds, is_within_limit,
  handle_rounds-limit,
}
use srkrcc_main_application.Hackathon.Rounds.Decisions.Selection.{outcome, auto_shortlist_statuses}

abbrev entry : ℕ → Option Reviewed → Entry
entry pk submission = record {
  pk = pk;
  team = pk;
  reviewed = record { score = 0; review_count = 0 };
  submission = submission;
  idea = none;
  status = entry_pending;
  decided_by = none;
  decided_at = none;
  feedback = "";
  admin_notes = "";
}

abbrev scored : ℕ → Option Reviewed
scored s = some (record { score = s; review_count = 2 })

abbrev four_teams : Round
four_teams = record {
  shortlist_limit = some 3;
  results_published = false;
  is_judged = false;
  is_closed = false;
  entries =
      entry 1 (scored 8000) ∷ entry 2 (scored 9050) ∷ entry 3 (scored 8000) ∷ entry 4 none ∷ [];
  members = [];
  arrivals = [];
  effects = [];
}

-- Three teams go through by a rule that asks for two.
ties_kept :
    evaluate_rule four_teams project_score_top (hundredths 200)
    ≡ ok (
        (entry 1 (scored 8000), true)
        ∷ (entry 2 (scored 9050), true)
        ∷ (entry 3 (scored 8000), true)
        ∷ (entry 4 none, false)
        ∷ [])
unfolding evaluate_rule evaluate_kind select_top metric sort_scores score_at
ties_kept = refl

-- "nan" as the number of teams is refused by no test of the program.
nan_uncaught : evaluate_rule four_teams project_score_top not_finite ≡ err uncaught
unfolding evaluate_rule evaluate_kind
nan_uncaught = refl

evaluate_rule_top_example :
    evaluate_rule four_teams project_score_top (hundredths (100 * 2))
    ≡ ok
        (map (λ e. (e, is_shortlisted project_score_top 2 four_teams.entries e)) four_teams.entries)
evaluate_rule_top_example = evaluate_rule_top four_teams project_score_top 2 refl refl (omega arith)

abbrev by_ada : Decision
by_ada = record {
  actor = 1;
  now = 300;
  feedback = none;
  admin_notes = none;
  confirm_published = false;
  confirm_over_limit = false;
}

-- The best two scores, then one team more than the limit allows.
abbrev shortlisting : List RoundRequest
shortlisting =
    shortlist_by_rule by_ada project_score_top (hundredths 200) true true
    ∷ decide_entries by_ada (4 ∷ []) (some shortlisted)
    ∷ []

-- The second request is refused.
four_rejected :
    map (λ e. e.status) (handle_rounds shortlisting four_teams).entries
    ≡ (shortlisted ∷ shortlisted ∷ shortlisted ∷ rejected ∷ [])
unfolding handle_rounds handle_round auto_shortlist apply_rule reject_undecided decide is_over_limit
    record_decision evaluate_rule evaluate_kind select_top metric sort_scores score_at
four_rejected = refl

handle_rounds-limit_example : is_within_limit (handle_rounds shortlisting four_teams) ≡ true
handle_rounds-limit_example = handle_rounds-limit shortlisting four_teams refl refl

abbrev four_rows : List (Entry × Bool)
four_rows =
    (entry 1 (scored 8000), true)
    ∷ (entry 2 (scored 9050), true)
    ∷ (entry 3 (scored 8000), true)
    ∷ (entry 4 none, false)
    ∷ []

abbrev four_effects : List Effect
four_effects =
    audit_decision 1 shortlisted (1 ∷ 2 ∷ 3 ∷ [])
    ∷ audit_decision 1 rejected (4 ∷ [])
    ∷ audit_auto_shortlist 1
    ∷ []

abbrev four_after : Round
four_after = record four_teams {
  entries =
      decided by_ada shortlisted (entry 1 (scored 8000))
      ∷ decided by_ada shortlisted (entry 2 (scored 9050))
      ∷ decided by_ada shortlisted (entry 3 (scored 8000))
      ∷ decided by_ada rejected (entry 4 none)
      ∷ [];
  effects = four_effects;
}

four_applied :
    auto_shortlist by_ada project_score_top (hundredths 200) true true four_teams
    ≡ ok (preview four_teams four_rows true, four_after)
unfolding auto_shortlist apply_rule reject_undecided decide is_over_limit record_decision
    evaluate_rule evaluate_kind select_top metric sort_scores score_at
four_applied = refl

auto_shortlist_statuses_example :
    map (λ e. e.status) four_after.entries ≡ map (λ r. outcome true r.1 r.0.status) four_rows
auto_shortlist_statuses_example =
    auto_shortlist_statuses by_ada project_score_top (hundredths 200) true four_teams four_after
      (preview four_teams four_rows true) four_rows (refl, (refl, (refl, (refl, tt)))) ties_kept
      four_applied
