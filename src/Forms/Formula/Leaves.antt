-- ===== src/Forms/Formula/Leaves.antt =====
-- The numbers and questions of a parsed formula (apps/forms/validation/formula.py).
use srkrcc_main_application.Common.{
  ℕ, zero, suc, ◌+◌, ◌*◌, ◌≡◌, refl, ap, sym, subst, ◌∙◌, Option, some, List, [], ◌∷◌, ◌++◌, ltb,
  arith, length, Option-cases, Bool-cases, ◌⊎◌, inl, inr,
}
use srkrcc_main_application.Forms.Formula.{
  max_depth, FormulaError, Symbol, plus, minus, times, over, opening, closing, Token, number_token,
  reference_token, symbol_token, Operator, Node, number_node, reference_node, negated, applied,
  Parsed, parsed, refused, Cursor, Method, expression, term, factor, more_terms, more_factors,
  additive, multiplicative, next_operator, drop_one, and_then, close, run, parse_all,
}

-- A number or a question, as a token or as a leaf.
pub data Leaf (N : Type 0) : Type 0 where
  number_leaf : N → Leaf N
  question_leaf : ℕ → Leaf N

abbrev pub leaves_of : {N : Type 0} → List (Token N) → List (Leaf N)
leaves_of [] = []
leaves_of (number_token k ∷ ts) = number_leaf k ∷ leaves_of ts
leaves_of (reference_token r ∷ ts) = question_leaf r ∷ leaves_of ts
leaves_of (symbol_token s ∷ ts) = leaves_of ts

abbrev pub leaves : {N : Type 0} → Node N → List (Leaf N)
leaves (number_node k) = number_leaf k ∷ []
leaves (reference_node r) = question_leaf r ∷ []
leaves (negated a) = leaves a
leaves (applied o a b) = leaves a ++ leaves b

-- The leaves that a method starts from: a loop's node comes before the tokens.
abbrev pub leaves_before : {N : Type 0} → Method N → List (Leaf N)
leaves_before expression = []
leaves_before term = []
leaves_before factor = []
leaves_before (more_terms node) = leaves node
leaves_before (more_factors node) = leaves node

pub Parsed-cases :
    {N : Type 0} (p : Parsed (Node N × Cursor N))
    → ((e : FormulaError) × (p ≡ refused e))
      ⊎ ((node : Node N) × (c : Cursor N) × (p ≡ parsed (node, c)))
Parsed-cases (parsed (node, c)) = inr (node, c, refl)
Parsed-cases (refused e) = inl (e, refl)

-- What two nested calls have parsed.
pub and_then_parsed :
    {N : Type 0} (p : Parsed (Node N × Cursor N))
    (k : Node N → Cursor N → Parsed (Node N × Cursor N)) (r : Node N × Cursor N)
    → and_then p k ≡ parsed r
    → (node : Node N) × (c : Cursor N) × (p ≡ parsed (node, c)) × (k node c ≡ parsed r)
and_then_parsed p k r h = elim (Parsed-cases p) [
  | inl (e, q) ↦ absurd (ground arith)
  | inr (node, c, q) ↦ (node, c, q, ground arith)
]

leaves_of-drop_one :
    {N : Type 0} (f : Symbol → Option Operator) (o : Operator) (ts : List (Token N))
    → next_operator f ts ≡ some o
    → leaves_of (drop_one ts) ≡ leaves_of ts
leaves_of-drop_one f o [] h = refl
leaves_of-drop_one f o (number_token k ∷ ts) h = absurd (ground arith)
leaves_of-drop_one f o (reference_token r ∷ ts) h = absurd (ground arith)
leaves_of-drop_one f o (symbol_token s ∷ ts) h = refl

close_lem :
    {N : Type 0} (node out : Node N) (ts rest : List (Token N)) (d d' : ℕ)
    → close node (ts, suc d) ≡ parsed (out, (rest, d'))
    → (out ≡ node) × (d' ≡ d) × (leaves_of rest ≡ leaves_of ts)
unfolding close
close_lem node out ts rest d d' h = ground arith

++_assoc : {A : Type 0} (xs ys zs : List A) → (xs ++ ys) ++ zs ≡ xs ++ (ys ++ zs)
++_assoc [] ys zs = refl
++_assoc (x ∷ xs) ys zs = ap (λ r. x ∷ r) (++_assoc xs ys zs)

++_nil : {A : Type 0} (xs : List A) → xs ++ [] ≡ xs
++_nil [] = refl
++_nil (x ∷ xs) = ap (λ r. x ∷ r) (++_nil xs)

-- What a call keeps: the leaves, in order, and the depth.
abbrev Keeps : {N : Type 0} → Method N → List (Token N) → ℕ → Node N → List (Token N) → ℕ → Type 0
Keeps m ts d node rest d' =
    (d' ≡ d) × (leaves_before m ++ leaves_of ts ≡ leaves node ++ leaves_of rest)

more_Keeps :
    {N : Type 0} (n : ℕ) (o : Operator) (f : Symbol → Option Operator) (node right out : Node N)
    (m : Method N) (ts rest rest' : List (Token N)) (d d1 d' : ℕ)
    → next_operator f ts ≡ some o
    → leaves_before m ≡ []
    → Keeps m (drop_one ts) d right rest d1
    → Keeps (more_terms (applied o node right)) rest d1 out rest' d'
    → Keeps (more_terms node) ts d out rest' d'
more_Keeps n o f node right out m ts rest rest' d d1 d' h e a b = (
  b.0 ∙ a.0,
  ap (λ r. leaves node ++ r)
        (sym (leaves_of-drop_one f o ts h) ∙ sym (ap (λ r. r ++ leaves_of (drop_one ts)) e) ∙ a.1)
      ∙ sym (++_assoc (leaves node) (leaves right) (leaves_of rest))
      ∙ b.1,
)

run-Keeps :
    {N : Type 0} (n : ℕ) (m : Method N) (ts rest : List (Token N)) (node : Node N) (d d' : ℕ)
    → run n m (ts, d) ≡ parsed (node, (rest, d'))
    → Keeps m ts d node rest d'
unfolding run
run-Keeps zero m ts rest node d d' h = absurd (ground arith)
run-Keeps (suc n) expression ts rest node d d' h =
    let (a, c, p, q) =
      and_then_parsed (run n term (ts, d)) (λ node c'. run n (more_terms node) c')
        (node, (rest, d')) h in
    let x = run-Keeps n term ts c.0 a d c.1 p in
    let y = run-Keeps n (more_terms a) c.0 rest node c.1 d' q in (y.0 ∙ x.0, x.1 ∙ y.1)
run-Keeps (suc n) term ts rest node d d' h =
    let (a, c, p, q) =
      and_then_parsed (run n factor (ts, d)) (λ node c'. run n (more_factors node) c')
        (node, (rest, d')) h in
    let x = run-Keeps n factor ts c.0 a d c.1 p in
    let y = run-Keeps n (more_factors a) c.0 rest node c.1 d' q in (y.0 ∙ x.0, x.1 ∙ y.1)
run-Keeps {N = N} (suc n) (more_terms a) ts rest node d d' h =
    elim (Option-cases (next_operator additive ts)) [
      | inl e ↦ ground arith
      | inr (o, e) ↦
          let next =
            λ (right : Node N) (c' : Cursor N). run n (more_terms (applied o a right)) c' in
          let h' : and_then (run n term (drop_one ts, d)) next ≡ parsed (node, (rest, d')) =
            ground (arith, e) in
          let (right, c, p, q) =
            and_then_parsed (run n term (drop_one ts, d)) next (node, (rest, d')) h' in
          more_Keeps n o additive a right node term ts c.0 rest d c.1 d' e refl
            (run-Keeps n term (drop_one ts) c.0 right d c.1 p)
            (run-Keeps n (more_terms (applied o a right)) c.0 rest node c.1 d' q)
    ]
run-Keeps {N = N} (suc n) (more_factors a) ts rest node d d' h =
    elim (Option-cases (next_operator multiplicative ts)) [
      | inl e ↦ ground arith
      | inr (o, e) ↦
          let next =
            λ (right : Node N) (c' : Cursor N). run n (more_factors (applied o a right)) c' in
          let h' : and_then (run n factor (drop_one ts, d)) next ≡ parsed (node, (rest, d')) =
            ground (arith, e) in
          let (right, c, p, q) =
            and_then_parsed (run n factor (drop_one ts, d)) next (node, (rest, d')) h' in
          more_Keeps n o multiplicative a right node factor ts c.0 rest d c.1 d' e refl
            (run-Keeps n factor (drop_one ts) c.0 right d c.1 p)
            (run-Keeps n (more_factors (applied o a right)) c.0 rest node c.1 d' q)
    ]
run-Keeps (suc n) factor [] rest node d d' h = absurd (ground arith)
run-Keeps (suc n) factor (number_token k ∷ ts) rest node d d' h = ground arith
run-Keeps (suc n) factor (reference_token k ∷ ts) rest node d d' h = ground arith
run-Keeps (suc n) factor (symbol_token minus ∷ ts) rest node d d' h =
    let (a, c, p, q) =
      and_then_parsed (run n factor (ts, d)) (λ node c'. parsed (negated node, c'))
        (node, (rest, d')) h in
    let x = run-Keeps n factor ts c.0 a d c.1 p in ground (arith, x.0, x.1, q)
run-Keeps (suc n) factor (symbol_token opening ∷ ts) rest node d d' h =
    elim (Bool-cases (ltb max_depth (suc d))) [
      | inl deep ↦ absurd (ground arith)
      | inr fine ↦
          let h' : and_then (run n expression (ts, suc d)) close ≡ parsed (node, (rest, d')) =
            ground (arith, fine) in
          let (a, c, p, q) =
            and_then_parsed (run n expression (ts, suc d)) close (node, (rest, d')) h' in
          let x = run-Keeps n expression ts c.0 a (suc d) c.1 p in
          let y : close a (c.0, suc d) ≡ parsed (node, (rest, d')) =
            subst (λ k. close a (c.0, k) ≡ parsed (node, (rest, d'))) x.0 q in
          let z = close_lem a node c.0 rest d d' y in (z.1, ground (arith, x.1, z.0, z.2))
    ]
run-Keeps (suc n) factor (symbol_token plus ∷ ts) rest node d d' h = absurd (ground arith)
run-Keeps (suc n) factor (symbol_token times ∷ ts) rest node d d' h = absurd (ground arith)
run-Keeps (suc n) factor (symbol_token over ∷ ts) rest node d d' h = absurd (ground arith)
run-Keeps (suc n) factor (symbol_token closing ∷ ts) rest node d d' h = absurd (ground arith)

-- The leaves of a formula's tree, from left to right, are the numbers and questions of its tokens.
pub parse_all-leaves :
    {N : Type 0} (ts : List (Token N)) (node : Node N)
    → parse_all ts ≡ parsed node
    → leaves node ≡ leaves_of ts
unfolding parse_all
parse_all-leaves [] node h = absurd (ground arith)
parse_all-leaves (t ∷ ts) node h =
    elim (Parsed-cases (run (3 * length (t ∷ ts) + 3) expression (t ∷ ts, 0))) [
      | inl (e, q) ↦ absurd (ground arith)
      | inr (a, ([], d), q) ↦ ground (
        arith,
        ++_nil (leaves a),
        run-Keeps (3 * length (t ∷ ts) + 3) expression (t ∷ ts) [] a 0 d q,
      )
      | inr (a, (u ∷ us, d), q) ↦ absurd (ground arith)
    ]
