-- ===== src/Forms/Tests.antt =====
-- A calculated question on which the theorems are tried out.
use srkrcc_main_application.Common.{
  ℕ, ◌+◌, ◌*◌, ◌-◌, ◌/◌, ◌≡◌, ◌≤◌, ◌==◌, refl, true, arith, some, List, [], ◌∷◌, length, leb,
  if◌then◌else◌,
}
use srkrcc_main_application.Forms.Formula.{
  Decimals, Token, number_token, reference_token, symbol_token, plus, minus, times, over, opening,
  closing, Node, number_node, reference_node, negated, applied, add, multiply, Parsed, parsed,
  refused, Reading, blank, reads, run, close, references, union_ids, parse_all, parse, node_value,
  evaluate, max_references,
}
use srkrcc_main_application.Forms.Formula.Leaves.{leaves, leaves_of, parse_all-leaves}
use srkrcc_main_application.Forms.Formula.Termination.{parse_ends}
use srkrcc_main_application.Forms.Formula.Locality.{is_named, evaluate_local}

-- Whole numbers, which are enough for the examples.
abbrev whole : Decimals
whole = record {
  Number = ℕ;
  zero_number = 0;
  neg_of = λ a. a;
  add_of = λ a b. some (a + b);
  sub_of = λ a b. some (a - b);
  mul_of = λ a b. some (a * b);
  div_of = λ a b. some (a / b);
  is_zero = λ a. a == 0;
  is_too_large = λ a. leb 1000000000000000 a;
  round_to = λ n a. a;
}

-- `2 * ({7} + 1)`
abbrev doubled : List (Token ℕ)
doubled =
    number_token 2
    ∷ symbol_token times
    ∷ symbol_token opening
    ∷ reference_token 7
    ∷ symbol_token plus
    ∷ number_token 1
    ∷ symbol_token closing
    ∷ []

abbrev doubled_tree : Node ℕ
doubled_tree = applied multiply (number_node 2) (applied add (reference_node 7) (number_node 1))

doubled_parses_all : parse_all doubled ≡ parsed doubled_tree
unfolding parse_all run close
doubled_parses_all = refl

doubled_parses : parse doubled ≡ parsed doubled_tree
unfolding parse parse_all run close references union_ids
doubled_parses = refl

-- Question 7 is answered by 4; another set of answers also has one to question 8.
abbrev some_answers : ℕ → Reading ℕ
some_answers r = if r == 7 then reads 4 else blank

abbrev more_answers : ℕ → Reading ℕ
more_answers r = if r == 7 then reads 4 else if r == 8 then reads 9 else blank

doubled_value : evaluate whole doubled some_answers 2 ≡ some 10
unfolding evaluate parse parse_all run close references union_ids node_value
doubled_value = refl

same_at_seven :
    (r : ℕ) → is_named (references doubled_tree) r ≡ true → some_answers r ≡ more_answers r
unfolding references union_ids
same_at_seven r h = ground arith

parse_all-leaves_example : leaves doubled_tree ≡ leaves_of doubled
parse_all-leaves_example = parse_all-leaves doubled doubled_tree doubled_parses_all

parse_ends_example :
    parse doubled ≡ refused (srkrcc_main_application.Forms.Formula.out_of_steps) → ⊥
parse_ends_example = parse_ends doubled

evaluate_local_example :
    (evaluate whole doubled some_answers 2 ≡ evaluate whole doubled more_answers 2)
    × (length (references doubled_tree) ≤ max_references)
evaluate_local_example =
    evaluate_local whole doubled doubled_tree some_answers more_answers 2 doubled_parses
      same_at_seven
