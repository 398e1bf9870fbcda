-- ===== src/Forms/Layout/Tests.antt =====
-- A form of two pages: the page break between them ends the form where its second question is answered.
use mathlib.Core.List.{Memᴰ}
use mathlib.Core.List.Memᴰ.{head, tail}
use srkrcc_main_application.Common.{
  ℕ, ◌≡◌, refl, Bool, true, false, ◌&&◌, Option, none, some, List, [], ◌∷◌, arith, ltb, ◌==◌,
  if◌then◌else◌, length, strip,
}
use srkrcc_main_application.Common.Rows.Laws.{Distinct}
use srkrcc_main_application.Forms.Conditions.{
  Value, missing, text, Reading, Operator, equals, is_not_empty, evaluate_operator, is_blank,
  key_eq, cmp_pair, plain, as_text,
}
use srkrcc_main_application.Forms.Conditions.Trees.{
  Rule, leaf, group, no_rules, rule, Answers, evaluate_node, evaluate_leaf, evaluate_tree,
}
use srkrcc_main_application.Forms.Conditions.Trees.Watching.{watches}
use srkrcc_main_application.Forms.Layout.{
  Action, show, require, end_form, display_message, Condition, Field, effective,
}
use srkrcc_main_application.Forms.Layout.Checks.{
  is_ranked, Ranked-check, is_looking_back, LooksBack-check,
}
use srkrcc_main_application.Forms.Layout.Pages.{split_pages, skipped_pages, hidden_from, walk}
use srkrcc_main_application.Forms.Layout.Pages.Walk.{walk_enough}
use srkrcc_main_application.Forms.Layout.Passes.{settle}
use srkrcc_main_application.Forms.Layout.Passes.Visits.{field_id}
use srkrcc_main_application.Forms.Layout.Passes.Convergence.{Ranked, settle_converges}
use srkrcc_main_application.Forms.Layout.Passes.Outcome.{Meets, should_show, should_force}
use srkrcc_main_application.Forms.Layout.Passes.Unique.{settle-Meets, settle_unique}
use srkrcc_main_application.Forms.Layout.Compute.{compute_layout, same_pages}
use srkrcc_main_application.Forms.Layout.Compute.Turns.{LooksBack}
use srkrcc_main_application.Forms.Layout.Compute.Grants.{is_given, compute_layout_grants}
use srkrcc_main_application.Forms.Layout.Compute.Routes.{compute_layout_consistent}

abbrev plain_reading : Reading
plain_reading = record {
  Number = ℕ;
  number_lt = ltb;
  number_eq = λ a b. a == b;
  as_number = λ v. none;
  as_date = λ v. none;
  lower = λ s. s;
  text_lt = λ s t. false;
  search_regex = λ s t. none;
}

abbrev only : Operator → ℕ → Value → Rule
only op q value = group false (rule (leaf (some q) op value none) no_rules)

abbrev question : ℕ → Bool → Option Condition → Field
question id page_break condition = record {
  id = id;
  is_page_break = page_break;
  is_required = false;
  condition = condition;
}

abbrev when : Rule → Action → Option Condition
when tree action =
    some (record { tree = tree; action = action; action_value = none; target = none })

-- Question 2 shows where 1 is "yes"; the page break 3 ends the form where 2 is answered; 4 is required
-- where 1 is answered.
abbrev event_form : List Field
event_form =
    question 1 false none
    ∷ question 2 false (when (only equals 1 (text "yes")) show)
    ∷ question 3 true (when (only is_not_empty 2 missing) end_form)
    ∷ question 4 false (when (only is_not_empty 1 missing) require)
    ∷ []

abbrev answers : Answers
answers q = if q == 1 then text "yes" else if q == 2 then text "blue" else missing

abbrev event_rank : ℕ → ℕ
event_rank q = if q == 1 then 0 else if q == 2 then 1 else 2

abbrev event_page : ℕ → ℕ
event_page q = if ltb q 3 then 0 else 1

event-Distinct : Distinct field_id event_form
event-Distinct = (refl, (refl, (refl, (refl, tt))))

event-Ranked : Ranked event_rank event_form
unfolding is_ranked watches
event-Ranked = Ranked-check event_rank event_form refl

event-LooksBack : LooksBack event_page event_form
unfolding is_looking_back watches split_pages
event-LooksBack = LooksBack-check event_page event_form refl

event_pages : split_pages event_form ≡ ((1 ∷ 2 ∷ []) ∷ (3 ∷ 4 ∷ []) ∷ [])
unfolding split_pages
event_pages = refl

-- The second page is skipped.
event_skips : (compute_layout plain_reading event_form answers).skipped 1 ≡ true
unfolding compute_layout evaluate_node evaluate_leaf evaluate_operator is_blank evaluate_tree strip
    key_eq cmp_pair plain as_text
event_skips = refl

event_shows : (compute_layout plain_reading event_form answers).visible_ids 4 ≡ false
unfolding compute_layout evaluate_node evaluate_leaf evaluate_operator is_blank evaluate_tree strip
    key_eq cmp_pair plain as_text
event_shows = refl

settle_converges_example : (settle plain_reading answers (λ q. false) event_form).changed ≡ false
settle_converges_example =
    settle_converges plain_reading answers (λ q. false) event_rank event_form event-Distinct
      event-Ranked

settle-Meets_example :
    Meets plain_reading answers
      (λ q. false)
      event_form
      (settle plain_reading answers (λ q. false) event_form).visible
      (settle plain_reading answers (λ q. false) event_form).overrides
settle-Meets_example =
    settle-Meets plain_reading answers (λ q. false) event_form event_rank event-Distinct
      event-Ranked

-- The layout of the form where nothing is hidden.
abbrev event_visible : ℕ → Bool
event_visible q = ltb 0 q && ltb q 5

abbrev event_overrides : ℕ → Option Bool
event_overrides q = if q == 4 then some true else none

event_visible_holds :
    (f : Field)
    → Memᴰ f event_form
    → event_visible f.id ≡ should_show plain_reading answers (λ q. false) event_form event_visible f
unfolding evaluate_node evaluate_leaf evaluate_operator is_blank evaluate_tree strip key_eq cmp_pair
    plain as_text effective
event_visible_holds f (head e) = rw e refl
event_visible_holds f (tail (head e)) = rw e refl
event_visible_holds f (tail (tail (head e))) = rw e refl
event_visible_holds f (tail (tail (tail (head e)))) = rw e refl
event_visible_holds f (tail (tail (tail (tail m)))) = elim m [ ]

event_overrides_hold :
    (f : Field)
    → Memᴰ f event_form
    → event_overrides f.id
      ≡ should_force plain_reading answers (λ q. false) event_form event_visible f
unfolding evaluate_node evaluate_leaf evaluate_operator is_blank evaluate_tree strip key_eq cmp_pair
    plain as_text effective
event_overrides_hold f (head e) = rw e refl
event_overrides_hold f (tail (head e)) = rw e refl
event_overrides_hold f (tail (tail (head e))) = rw e refl
event_overrides_hold f (tail (tail (tail (head e)))) = rw e refl
event_overrides_hold f (tail (tail (tail (tail m)))) = elim m [ ]

event-Meets : Meets plain_reading answers (λ q. false) event_form event_visible event_overrides
event-Meets = record {
  shows = event_visible_holds;
  forces = event_overrides_hold;
  hides_others = λ q n. ground arith;
  forces_no_other = λ q n. ground arith;
}

settle_unique_example :
    ((settle plain_reading answers (λ q. false) event_form).visible 4 ≡ event_visible 4)
    × ((settle plain_reading answers (λ q. false) event_form).overrides 4 ≡ event_overrides 4)
settle_unique_example =
    settle_unique plain_reading answers (λ q. false) event_form event_rank event-Distinct
      event-Ranked event_visible event_overrides 4 event-Meets

compute_layout_consistent_example :
    Meets plain_reading answers
      (hidden_from
        (split_pages event_form)
        0
        (compute_layout plain_reading event_form answers).skipped)
      event_form
      (compute_layout plain_reading event_form answers).visible_ids
      (compute_layout plain_reading event_form answers).required_overrides
    × (same_pages
          (length (split_pages event_form))
          (skipped_pages plain_reading event_form
            (split_pages event_form)
            (compute_layout plain_reading event_form answers).visible_ids
            answers)
          (compute_layout plain_reading event_form answers).skipped
        ≡ true)
compute_layout_consistent_example =
    compute_layout_consistent plain_reading event_form answers event_rank event_page event-Distinct
      event-Ranked event-LooksBack

-- A first question that shows where one of the second page is answered, and a page break that ends the
-- form where the first question is.
abbrev circle_form : List Field
circle_form =
    question 1 false (when (only is_not_empty 3 missing) show)
    ∷ question 2 true (when (only is_not_empty 1 missing) end_form)
    ∷ question 3 false none
    ∷ []

abbrev circle_answers : Answers
circle_answers q = text "a"

-- The layout shows a question of a page that it skips.
circle_skips : (compute_layout plain_reading circle_form circle_answers).skipped 1 ≡ true
unfolding compute_layout evaluate_node evaluate_leaf evaluate_operator is_blank evaluate_tree strip
    key_eq cmp_pair plain as_text
circle_skips = refl

circle_shows : (compute_layout plain_reading circle_form circle_answers).visible_ids 3 ≡ true
unfolding compute_layout evaluate_node evaluate_leaf evaluate_operator is_blank evaluate_tree strip
    key_eq cmp_pair plain as_text
circle_shows = refl

-- A question with a message.
abbrev told_form : List Field
told_form =
    record {
      id = 1;
      is_page_break = false;
      is_required = false;
      condition = some (record {
        tree = only is_not_empty 1 missing;
        action = display_message;
        action_value = some (text "Thank you");
        target = none;
      });
    }
    ∷ []

told_given : is_given 1 (compute_layout plain_reading told_form answers).messages ≡ true
unfolding compute_layout evaluate_node evaluate_leaf evaluate_operator is_blank evaluate_tree strip
told_given = refl

compute_layout_grants_example :
    (compute_layout plain_reading told_form answers).visible_ids 1 ≡ true
compute_layout_grants_example =
    compute_layout_grants plain_reading told_form answers 1 (ground (arith, told_given))

-- The walk over the two pages of the form.
walk_enough_example :
    walk plain_reading event_form ((1 ∷ 2 ∷ []) ∷ (3 ∷ 4 ∷ []) ∷ []) 1 answers 0 (λ i. false)
    ≡ walk plain_reading event_form ((1 ∷ 2 ∷ []) ∷ (3 ∷ 4 ∷ []) ∷ []) 5 answers 0 (λ i. false)
walk_enough_example =
    walk_enough plain_reading event_form ((1 ∷ 2 ∷ []) ∷ (3 ∷ 4 ∷ []) ∷ []) 1 5 answers 0
      (λ i. false) (omega arith) (omega arith)
