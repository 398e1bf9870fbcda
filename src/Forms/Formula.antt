-- ===== src/Forms/Formula.antt =====
-- apps/forms/validation/formula.py: the parser of calculated questions and the value of a formula.
pub mod Leaves
pub mod Termination
pub mod Locality
use srkrcc_main_application.Common.{
  ℕ, zero, suc, ◌+◌, ◌*◌, Bool, true, false, ◌||◌, Option, none, some, List, [], ◌∷◌, ◌==◌, ltb,
  length, exists, min, if◌then◌else◌,
}

-- Python's `Decimal`, as the formulas use it; `none` is an `ArithmeticError`.
pub record Decimals : Type 1 where
  pub Number : Type 0
  pub zero_number : Number
  pub neg_of : Number → Number
  pub add_of : Number → Number → Option Number
  pub sub_of : Number → Number → Option Number
  pub mul_of : Number → Number → Option Number
  pub div_of : Number → Number → Option Number
  pub is_zero : Number → Bool
  pub is_too_large : Number → Bool  -- `abs(result) >= MAX_RESULT`
  pub round_to : ℕ → Number → Number  -- half up, to so many places

pub data FormulaError : Type 0 where
  formula_empty formula_trailing formula_ends formula_too_deep : FormulaError
  formula_not_closed formula_unexpected formula_too_many : FormulaError
  out_of_steps : FormulaError

pub data Symbol : Type 0 where
  plus minus times over opening closing : Symbol

abbrev pub max_depth : ℕ
max_depth = 20

abbrev pub max_references : ℕ
max_references = 30

abbrev pub max_decimals : ℕ
max_decimals = 6

pub data Token (N : Type 0) : Type 0 where
  number_token : N → Token N
  reference_token : ℕ → Token N
  symbol_token : Symbol → Token N

pub data Operator : Type 0 where
  add subtract multiply divide : Operator

pub data Node (N : Type 0) : Type 0 where
  number_node : N → Node N
  reference_node : ℕ → Node N
  negated : Node N → Node N
  applied : Operator → Node N → Node N → Node N

pub data Parsed (A : Type 0) : Type 0 where
  parsed : A → Parsed A
  refused : FormulaError → Parsed A

-- What is left of the tokens, and `self.depth`.
abbrev pub Cursor : Type 0 → Type 0
Cursor N = List (Token N) × ℕ

-- Which method of the parser runs; the loops of `expression` and `term` carry the node so far.
pub data Method (N : Type 0) : Type 0 where
  expression term factor : Method N
  more_terms more_factors : Node N → Method N

abbrev pub additive : Symbol → Option Operator
additive plus = some add
additive minus = some subtract
additive times = none
additive over = none
additive opening = none
additive closing = none

abbrev pub multiplicative : Symbol → Option Operator
multiplicative times = some multiply
multiplicative over = some divide
multiplicative plus = none
multiplicative minus = none
multiplicative opening = none
multiplicative closing = none

-- The operator of a loop's next round, if the next token is one of its symbols.
abbrev pub next_operator :
    {N : Type 0} → (Symbol → Option Operator) → List (Token N) → Option Operator
next_operator f [] = none
next_operator f (number_token n ∷ ts) = none
next_operator f (reference_token r ∷ ts) = none
next_operator f (symbol_token s ∷ ts) = f s

abbrev pub drop_one : {A : Type 0} → List A → List A
drop_one [] = []
drop_one (a ∷ rest) = rest

abbrev pub and_then :
    {N : Type 0}
    → Parsed (Node N × Cursor N)
    → (Node N → Cursor N → Parsed (Node N × Cursor N))
    → Parsed (Node N × Cursor N)
and_then (parsed (node, c)) k = k node c
and_then (refused e) k = refused e

-- `closing = self.take()`, and the depth goes back.
unfoldable pub close : {N : Type 0} → Node N → Cursor N → Parsed (Node N × Cursor N)
close node (symbol_token closing ∷ ts, suc d) = parsed (node, (ts, d))
close node (symbol_token closing ∷ ts, zero) = parsed (node, (ts, 0))
close node (symbol_token plus ∷ ts, d) = refused formula_not_closed
close node (symbol_token minus ∷ ts, d) = refused formula_not_closed
close node (symbol_token times ∷ ts, d) = refused formula_not_closed
close node (symbol_token over ∷ ts, d) = refused formula_not_closed
close node (symbol_token opening ∷ ts, d) = refused formula_not_closed
close node (number_token n ∷ ts, d) = refused formula_not_closed
close node (reference_token r ∷ ts, d) = refused formula_not_closed
close node ([], d) = refused formula_not_closed

-- One call of a method, with at most so many calls nested in it.
unfoldable pub run : {N : Type 0} → ℕ → Method N → Cursor N → Parsed (Node N × Cursor N)
run zero m c = refused out_of_steps
run (suc n) expression c = and_then (run n term c) (λ node c'. run n (more_terms node) c')
run (suc n) term c = and_then (run n factor c) (λ node c'. run n (more_factors node) c')
run (suc n) (more_terms node) (ts, d) = elim (next_operator additive ts) [
  | none ↦ parsed (node, (ts, d))
  | some o ↦
      and_then (run n term (drop_one ts, d))
        (λ right c'. run n (more_terms (applied o node right)) c')
]
run (suc n) (more_factors node) (ts, d) = elim (next_operator multiplicative ts) [
  | none ↦ parsed (node, (ts, d))
  | some o ↦
      and_then (run n factor (drop_one ts, d))
        (λ right c'. run n (more_factors (applied o node right)) c')
]
run (suc n) factor ([], d) = refused formula_ends
run (suc n) factor (number_token k ∷ ts, d) = parsed (number_node k, (ts, d))
run (suc n) factor (reference_token r ∷ ts, d) = parsed (reference_node r, (ts, d))
run (suc n) factor (symbol_token minus ∷ ts, d) =
    and_then (run n factor (ts, d)) (λ node c'. parsed (negated node, c'))
run (suc n) factor (symbol_token opening ∷ ts, d) =
    let inner = run n expression (ts, suc d) in
    if ltb max_depth (suc d) then refused formula_too_deep else and_then inner close
run (suc n) factor (symbol_token plus ∷ ts, d) = refused formula_unexpected
run (suc n) factor (symbol_token times ∷ ts, d) = refused formula_unexpected
run (suc n) factor (symbol_token over ∷ ts, d) = refused formula_unexpected
run (suc n) factor (symbol_token closing ∷ ts, d) = refused formula_unexpected

-- A set of question ids, as a list without duplicates.
abbrev pub insert_id : ℕ → List ℕ → List ℕ
insert_id r rs = if exists (λ s. s == r) rs then rs else r ∷ rs

unfoldable pub union_ids : List ℕ → List ℕ → List ℕ
union_ids [] rs = rs
union_ids (q ∷ qs) rs = insert_id q (union_ids qs rs)

unfoldable pub references : {N : Type 0} → Node N → List ℕ
references (number_node k) = []
references (reference_node r) = r ∷ []
references (negated a) = references a
references (applied o a b) = union_ids (references a) (references b)

-- `_Parser.parse`: the whole of the tokens is one expression.
unfoldable pub parse_all : {N : Type 0} → List (Token N) → Parsed (Node N)
parse_all [] = refused formula_empty
parse_all (t ∷ ts) = elim (run (3 * length (t ∷ ts) + 3) expression (t ∷ ts, 0)) [
  | refused e ↦ refused e
  | parsed (node, (rest, d)) ↦ elim rest [ [] ↦ parsed node | u ∷ us ↦ refused formula_trailing ]
]

-- `parse`, from the tokens of the formula.
unfoldable pub parse : {N : Type 0} → List (Token N) → Parsed (Node N)
parse ts = elim (parse_all ts) [
  | refused e ↦ refused e
  | parsed node ↦
      if ltb max_references (length (references node))
      then refused formula_too_many
      else parsed node
]

-- How `is_empty` and `parse_number` of values.py take the answer to a question.
pub data Reading (N : Type 0) : Type 0 where
  blank not_a_number : Reading N
  reads : N → Reading N

module _ (D : Decimals) where
  abbrev pub bind_value : Option D.Number → (D.Number → Option D.Number) → Option D.Number
  bind_value none f = none
  bind_value (some a) f = f a

  abbrev pub divide_by : D.Number → D.Number → Option D.Number
  divide_by a b = if D.is_zero b then none else D.div_of a b

  abbrev pub compute : Operator → D.Number → D.Number → Option D.Number
  compute add a b = D.add_of a b
  compute subtract a b = D.sub_of a b
  compute multiply a b = D.mul_of a b
  compute divide a b = divide_by a b

  abbrev pub value_of_reading : Reading D.Number → Option D.Number
  value_of_reading blank = some D.zero_number
  value_of_reading not_a_number = none
  value_of_reading (reads a) = some a

  -- `_value`; `none` stands for `_Empty` and for an `ArithmeticError`.
  unfoldable pub node_value : Node D.Number → (ℕ → Reading D.Number) → Option D.Number
  node_value (number_node k) values = some k
  node_value (reference_node r) values = value_of_reading (values r)
  node_value (negated a) values = bind_value (node_value a values) (λ x. some (D.neg_of x))
  node_value (applied o a b) values =
      bind_value (node_value a values) (λ x. bind_value (node_value b values) (λ y. compute o x y))

  -- `evaluate`
  unfoldable pub evaluate : List (Token D.Number) → (ℕ → Reading D.Number) → ℕ → Option D.Number
  evaluate ts values decimals = elim (parse ts) [
    | refused e ↦ none
    | parsed node ↦
        bind_value (node_value node values)
          (λ x. if D.is_too_large x then none else some (D.round_to (min decimals max_decimals) x))
  ]
