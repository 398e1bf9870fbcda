-- ===== src/Forms/Formula/Termination.antt =====
-- The calls that the parser of apps/forms/validation/formula.py makes.
use srkrcc_main_application.Common.{
  ℕ, zero, suc, ◌+◌, ◌*◌, ◌≤◌, ◌≡◌, ◌≢◌, refl, Option, some, List, [], ◌∷◌, ltb, arith, length,
  Option-cases, Bool-cases, inl, inr,
}
use srkrcc_main_application.Forms.Formula.{
  max_depth, out_of_steps, Symbol, plus, minus, times, over, opening, closing, Token, number_token,
  reference_token, symbol_token, Operator, Node, negated, applied, Parsed, parsed, refused, Cursor,
  Method, expression, term, factor, more_terms, more_factors, additive, multiplicative,
  next_operator, drop_one, and_then, close, run, parse_all, parse,
}
use srkrcc_main_application.Forms.Formula.Leaves.{Parsed-cases, and_then_parsed}

-- How many tokens a successful call takes at least.
abbrev takes : {N : Type 0} → Method N → ℕ
takes expression = 1
takes term = 1
takes factor = 1
takes (more_terms node) = 0
takes (more_factors node) = 0

length-drop_one :
    {N : Type 0} (f : Symbol → Option Operator) (o : Operator) (ts : List (Token N))
    → next_operator f ts ≡ some o
    → suc (length (drop_one ts)) ≡ length ts
length-drop_one f o [] h = absurd (ground arith)
length-drop_one f o (t ∷ ts) h = refl

length-close :
    {N : Type 0} (node out : Node N) (ts rest : List (Token N)) (d d' : ℕ)
    → close node (ts, d) ≡ parsed (out, (rest, d'))
    → suc (length rest) ≡ length ts
unfolding close
length-close node out ts rest d d' h = ground arith

run-takes :
    {N : Type 0} (n : ℕ) (m : Method N) (ts rest : List (Token N)) (node : Node N) (d d' : ℕ)
    → run n m (ts, d) ≡ parsed (node, (rest, d'))
    → length rest + takes m ≤ length ts
unfolding run
run-takes zero m ts rest node d d' h = absurd (ground arith)
run-takes (suc n) expression ts rest node d d' h =
    let (a, c, p, q) =
      and_then_parsed (run n term (ts, d)) (λ node c'. run n (more_terms node) c')
        (node, (rest, d')) h in
    omega
      (arith, run-takes n term ts c.0 a d c.1 p, run-takes n (more_terms a) c.0 rest node c.1 d' q)
run-takes (suc n) term ts rest node d d' h =
    let (a, c, p, q) =
      and_then_parsed (run n factor (ts, d)) (λ node c'. run n (more_factors node) c')
        (node, (rest, d')) h in
    omega (
      arith,
      run-takes n factor ts c.0 a d c.1 p,
      run-takes n (more_factors a) c.0 rest node c.1 d' q,
    )
run-takes {N = N} (suc n) (more_terms a) ts rest node d d' h =
    elim (Option-cases (next_operator additive ts)) [
      | inl e ↦ ground arith
      | inr (o, e) ↦
          let next =
            λ (right : Node N) (c' : Cursor N). run n (more_terms (applied o a right)) c' in
          let h' : and_then (run n term (drop_one ts, d)) next ≡ parsed (node, (rest, d')) =
            ground (arith, e) in
          let (right, c, p, q) =
            and_then_parsed (run n term (drop_one ts, d)) next (node, (rest, d')) h' in
          omega (
            arith,
            length-drop_one additive o ts e,
            run-takes n term (drop_one ts) c.0 right d c.1 p,
            run-takes n (more_terms (applied o a right)) c.0 rest node c.1 d' q,
          )
    ]
run-takes {N = N} (suc n) (more_factors a) ts rest node d d' h =
    elim (Option-cases (next_operator multiplicative ts)) [
      | inl e ↦ ground arith
      | inr (o, e) ↦
          let next =
            λ (right : Node N) (c' : Cursor N). run n (more_factors (applied o a right)) c' in
          let h' : and_then (run n factor (drop_one ts, d)) next ≡ parsed (node, (rest, d')) =
            ground (arith, e) in
          let (right, c, p, q) =
            and_then_parsed (run n factor (drop_one ts, d)) next (node, (rest, d')) h' in
          omega (
            arith,
            length-drop_one multiplicative o ts e,
            run-takes n factor (drop_one ts) c.0 right d c.1 p,
            run-takes n (more_factors (applied o a right)) c.0 rest node c.1 d' q,
          )
    ]
run-takes (suc n) factor [] rest node d d' h = absurd (ground arith)
run-takes (suc n) factor (number_token k ∷ ts) rest node d d' h = ground arith
run-takes (suc n) factor (reference_token k ∷ ts) rest node d d' h = ground arith
run-takes (suc n) factor (symbol_token minus ∷ ts) rest node d d' h =
    let (a, c, p, q) =
      and_then_parsed (run n factor (ts, d)) (λ node c'. parsed (negated node, c'))
        (node, (rest, d')) h in
    ground (arith, run-takes n factor ts c.0 a d c.1 p, q)
run-takes (suc n) factor (symbol_token opening ∷ ts) rest node d d' h =
    elim (Bool-cases (ltb max_depth (suc d))) [
      | inl deep ↦ absurd (ground arith)
      | inr fine ↦
          let h' : and_then (run n expression (ts, suc d)) close ≡ parsed (node, (rest, d')) =
            ground (arith, fine) in
          let (a, c, p, q) =
            and_then_parsed (run n expression (ts, suc d)) close (node, (rest, d')) h' in
          omega (
            arith,
            run-takes n expression ts c.0 a (suc d) c.1 p,
            length-close a node c.0 rest c.1 d' q,
          )
    ]
run-takes (suc n) factor (symbol_token plus ∷ ts) rest node d d' h = absurd (ground arith)
run-takes (suc n) factor (symbol_token times ∷ ts) rest node d d' h = absurd (ground arith)
run-takes (suc n) factor (symbol_token over ∷ ts) rest node d d' h = absurd (ground arith)
run-takes (suc n) factor (symbol_token closing ∷ ts) rest node d d' h = absurd (ground arith)

-- How many nested calls a method needs besides three for each token.
abbrev steps : {N : Type 0} → Method N → ℕ
steps expression = 3
steps term = 2
steps factor = 1
steps (more_terms node) = 1
steps (more_factors node) = 1

-- Where two nested calls run out of steps, one of them does.
and_then_out :
    {N : Type 0} (p : Parsed (Node N × Cursor N))
    (k : Node N → Cursor N → Parsed (Node N × Cursor N))
    → (p ≡ refused out_of_steps → ⊥)
    → ((node : Node N) (rest : List (Token N)) (d : ℕ)
        → p ≡ parsed (node, (rest, d))
        → k node (rest, d) ≡ refused out_of_steps
        → ⊥)
    → and_then p k ≡ refused out_of_steps
    → ⊥
and_then_out p k a b h = elim (Parsed-cases p) [
  | inl (e, q) ↦ a (ground (arith, q))
  | inr (node, (rest, d), q) ↦ b node rest d q (ground (arith, q))
]

close_ends :
    {N : Type 0} (node : Node N) (ts : List (Token N)) (d : ℕ)
    → close node (ts, d) ≡ refused out_of_steps
    → ⊥
unfolding close
close_ends node ts d h = ground arith

run_ends :
    {N : Type 0} (n : ℕ) (m : Method N) (ts : List (Token N)) (d : ℕ)
    → 3 * length ts + steps m ≤ n
    → run n m (ts, d) ≡ refused out_of_steps
    → ⊥
unfolding run
run_ends zero expression ts d e h = ground arith
run_ends zero term ts d e h = ground arith
run_ends zero factor ts d e h = ground arith
run_ends zero (more_terms a) ts d e h = ground arith
run_ends zero (more_factors a) ts d e h = ground arith
run_ends (suc n) expression ts d e h =
    and_then_out (run n term (ts, d)) (λ node c'. run n (more_terms node) c')
      (run_ends n term ts d (omega arith))
      (λ node rest d' p.
        run_ends n (more_terms node) rest d' (omega (arith, run-takes n term ts rest node d d' p)))
      h
run_ends (suc n) term ts d e h =
    and_then_out (run n factor (ts, d)) (λ node c'. run n (more_factors node) c')
      (run_ends n factor ts d (omega arith))
      (λ node rest d' p.
        run_ends n (more_factors node) rest d'
          (omega (arith, run-takes n factor ts rest node d d' p)))
      h
run_ends {N = N} (suc n) (more_terms a) ts d e h = elim (Option-cases (next_operator additive ts)) [
  | inl k ↦ ground arith
  | inr (o, k) ↦
      let less = length-drop_one additive o ts k in
      and_then_out (run n term (drop_one ts, d))
        (λ right c'. run n (more_terms (applied o a right)) c')
        (run_ends n term (drop_one ts) d (omega (arith, less)))
        (λ right rest d' p.
          run_ends n (more_terms (applied o a right)) rest d'
            (omega (arith, less, run-takes n term (drop_one ts) rest right d d' p)))
        (ground (arith, k))
]
run_ends {N = N} (suc n) (more_factors a) ts d e h =
    elim (Option-cases (next_operator multiplicative ts)) [
      | inl k ↦ ground arith
      | inr (o, k) ↦
          let less = length-drop_one multiplicative o ts k in
          and_then_out (run n factor (drop_one ts, d))
            (λ right c'. run n (more_factors (applied o a right)) c')
            (run_ends n factor (drop_one ts) d (omega (arith, less)))
            (λ right rest d' p.
              run_ends n (more_factors (applied o a right)) rest d'
                (omega (arith, less, run-takes n factor (drop_one ts) rest right d d' p)))
            (ground (arith, k))
    ]
run_ends (suc n) factor [] d e h = ground arith
run_ends (suc n) factor (number_token k ∷ ts) d e h = ground arith
run_ends (suc n) factor (reference_token k ∷ ts) d e h = ground arith
run_ends (suc n) factor (symbol_token minus ∷ ts) d e h =
    and_then_out (run n factor (ts, d)) (λ node c'. parsed (negated node, c'))
      (run_ends n factor ts d (omega arith)) (λ node rest d' p q. ground arith) h
run_ends (suc n) factor (symbol_token opening ∷ ts) d e h =
    elim (Bool-cases (ltb max_depth (suc d))) [
      | inl deep ↦ ground arith
      | inr fine ↦
          and_then_out (run n expression (ts, suc d)) close
            (run_ends n expression ts (suc d) (omega arith))
            (λ node rest d' p q. close_ends node rest d' q) (ground (arith, fine))
    ]
run_ends (suc n) factor (symbol_token plus ∷ ts) d e h = ground arith
run_ends (suc n) factor (symbol_token times ∷ ts) d e h = ground arith
run_ends (suc n) factor (symbol_token over ∷ ts) d e h = ground arith
run_ends (suc n) factor (symbol_token closing ∷ ts) d e h = ground arith

-- The parser answers every list of tokens: it never runs out of the calls it is given, so that each
-- refusal is one of the code's own errors.
pub parse_ends : {N : Type 0} (ts : List (Token N)) → parse ts ≢ refused out_of_steps
unfolding parse parse_all
parse_ends [] h = ground arith
parse_ends (t ∷ ts) h = elim (Parsed-cases (run (3 * length (t ∷ ts) + 3) expression (t ∷ ts, 0))) [
  | inl (e, q) ↦
      run_ends (3 * length (t ∷ ts) + 3) expression (t ∷ ts) 0 (omega arith) (ground (arith, q))
  | inr (a, ([], d), q) ↦ ground (arith, q)
  | inr (a, (u ∷ us, d), q) ↦ ground (arith, q)
]
