-- ===== src/Forms/Conditions.antt =====
-- apps/forms/validation/conditional.py: the operators and the rule trees of conditional questions.
pub mod Trees
use srkrcc_main_application.Common.{
  ℕ, String, Bool, true, false, not, ◌&&◌, ◌||◌, Option, none, some, List, [], ◌∷◌, ◌==◌, ltb, leb,
  str_eq, exists, is_some, if◌then◌else◌, strip, join, has_prefix, has_suffix, has_substring,
  split_commas,
}

-- A submitted value: JSON, by Python's `str` where that is all the program reads of it. `scalar` is a
-- Boolean or a number, `table` a dictionary and whether it is empty, `many` a list and its `str`.
mutual
  pub data Value : Type 0 where
    missing : Value
    text : String → Value
    scalar : String → Value
    table : Bool → String → Value
    many : String → Values → Value

  pub data Values : Type 0 where
    end : Values
    item : Value → Values → Values

-- What the operators use of values.py and of Python: numbers, dates (as day numbers), `str.lower`, the
-- order of texts and regular expressions (`none` is `re.error`).
pub record Reading : Type 1 where
  pub Number : Type 0
  pub number_lt : Number → Number → Bool
  pub number_eq : Number → Number → Bool
  pub as_number : Value → Option Number  -- `_as_number`
  pub as_date : Value → Option ℕ  -- `_as_date`
  pub lower : String → String
  pub text_lt : String → String → Bool
  pub search_regex : String → String → Option Bool  -- pattern, text

pub data Operator : Type 0 where
  equals not_equals gt gte lt lte between not_between date_between : Operator
  contains not_contains starts_with ends_with matches_regex not_matches_regex : Operator
  is_empty is_not_empty selected includes not_selected not_includes : Operator
  includes_any includes_all before after on before_or_equal after_or_equal : Operator
  unknown_operator : Operator

-- `values.is_empty`
unfoldable pub is_blank : Value → Bool
is_blank missing = true
is_blank (text s) = str_eq (strip s) ""
is_blank (scalar s) = false
is_blank (table empty s) = empty
is_blank (many s end) = true
is_blank (many s (item v vs)) = false

-- `str(v)`
abbrev pub rendered : Value → String
rendered missing = "None"
rendered (text s) = s
rendered (scalar s) = s
rendered (table empty s) = s
rendered (many s vs) = s

abbrev pub all_rendered : Values → List String
all_rendered end = []
all_rendered (item v vs) = rendered v ∷ all_rendered vs

-- `_str`
unfoldable pub as_text : Value → String
as_text missing = ""
as_text (text s) = s
as_text (scalar s) = s
as_text (table empty s) = s
as_text (many s vs) = join ", " (all_rendered vs)

abbrev pub values_list : Values → List Value
values_list end = []
values_list (item v vs) = v ∷ values_list vs

-- `_as_list`
unfoldable pub as_list : Value → List Value
as_list (many s vs) = values_list vs
as_list missing = []
as_list (text s) = if is_blank (text s) then [] else text s ∷ []
as_list (scalar s) = scalar s ∷ []
as_list (table empty s) = if empty then [] else table empty s ∷ []

abbrev texts_of : List String → List Value
texts_of [] = []
texts_of (s ∷ ss) = text s ∷ texts_of ss

-- `right if isinstance(right, (list, tuple)) else _str(right).split(",")`
unfoldable pub bounds_of : Value → List Value
bounds_of (many s vs) = values_list vs
bounds_of missing = texts_of (split_commas (as_text missing))
bounds_of (text s) = texts_of (split_commas (as_text (text s)))
bounds_of (scalar s) = texts_of (split_commas (as_text (scalar s)))
bounds_of (table empty s) = texts_of (split_commas (as_text (table empty s)))

module _ (R : Reading) where
  -- One side of `_cmp_pair`.
  pub data Key : Type 0 where
    number_key : R.Number → Key
    date_key : ℕ → Key
    text_key : String → Key

  -- `_str(v).strip().lower()`
  unfoldable pub plain : Value → String
  plain v = R.lower (strip (as_text v))

  abbrev pub pair_of :
      Option R.Number → Option R.Number → Option ℕ → Option ℕ → Value → Value → Key × Key
  pair_of (some m) (some n) d e l r = (number_key m, number_key n)
  pair_of (some m) none (some d) (some e) l r = (date_key d, date_key e)
  pair_of (some m) none (some d) none l r = (text_key (plain l), text_key (plain r))
  pair_of (some m) none none e l r = (text_key (plain l), text_key (plain r))
  pair_of none n (some d) (some e) l r = (date_key d, date_key e)
  pair_of none n (some d) none l r = (text_key (plain l), text_key (plain r))
  pair_of none n none e l r = (text_key (plain l), text_key (plain r))

  -- `_cmp_pair`
  unfoldable pub cmp_pair : Value → Value → Key × Key
  cmp_pair l r = pair_of (R.as_number l) (R.as_number r) (R.as_date l) (R.as_date r) l r

  -- `l == r`; keys of different kinds are different.
  unfoldable pub key_eq : Key → Key → Bool
  key_eq (number_key m) (number_key n) = R.number_eq m n
  key_eq (date_key d) (date_key e) = d == e
  key_eq (text_key s) (text_key t) = str_eq s t
  key_eq (number_key m) (date_key e) = false
  key_eq (number_key m) (text_key t) = false
  key_eq (date_key d) (number_key n) = false
  key_eq (date_key d) (text_key t) = false
  key_eq (text_key s) (number_key n) = false
  key_eq (text_key s) (date_key e) = false

  -- `l < r`; `none` is a `TypeError`.
  unfoldable pub key_lt : Key → Key → Option Bool
  key_lt (number_key m) (number_key n) = some (R.number_lt m n)
  key_lt (date_key d) (date_key e) = some (ltb d e)
  key_lt (text_key s) (text_key t) = some (R.text_lt s t)
  key_lt (number_key m) (date_key e) = none
  key_lt (number_key m) (text_key t) = none
  key_lt (date_key d) (number_key n) = none
  key_lt (date_key d) (text_key t) = none
  key_lt (text_key s) (number_key n) = none
  key_lt (text_key s) (date_key e) = none

  abbrev holds : Option Bool → Bool
  holds none = false
  holds (some b) = b

  -- `l <= r`, as `l < r or l == r`
  abbrev key_le : Key → Key → Option Bool
  key_le l r = elim (key_lt l r) [ none ↦ none | some b ↦ some (b || key_eq l r) ]

  -- `lo <= v <= hi`, which does not compare `v` with `hi` where it is below `lo`
  abbrev key_within : Key → Key → Key → Option Bool
  key_within lo v hi = elim (key_le lo v) [
    | none ↦ none
    | some b ↦ elim b [ true ↦ key_le v hi | false ↦ some false ]
  ]

  -- `between`, `not_between` and `date_between`
  unfoldable pub in_bounds : Bool → Value → List Value → Bool
  in_bounds outside left [] = false
  in_bounds outside left (b ∷ []) = false
  in_bounds outside left (b ∷ c ∷ bs) =
      let low = cmp_pair left b in
      let high = cmp_pair left c in
      elim (key_within low.1 low.0 high.1) [
        | none ↦ false
        | some inside ↦ if outside then not inside else inside
      ]

  -- `text in {_str(x).strip().lower() for x in values}`
  unfoldable pub among : String → List Value → Bool
  among s vs = exists (λ v. str_eq (plain v) s) vs

  abbrev all_among : List Value → List Value → Bool
  all_among [] have = true
  all_among (v ∷ vs) have = among (plain v) have && all_among vs have

  abbrev compare_dates : (ℕ → ℕ → Bool) → Value → Value → Bool
  compare_dates f l r = elim (R.as_date l) [
    | none ↦ false
    | some d ↦ elim (R.as_date r) [ none ↦ false | some e ↦ f d e ]
  ]

  abbrev by_order : (Key → Key → Option Bool) → Value → Value → Bool
  by_order f l r = let p = cmp_pair l r in holds (f p.0 p.1)

  unfoldable pub evaluate_operator : Operator → Value → Value → Bool
  evaluate_operator equals l r = let p = cmp_pair l r in key_eq p.0 p.1
  evaluate_operator not_equals l r = let p = cmp_pair l r in not (key_eq p.0 p.1)
  evaluate_operator gt l r = by_order (λ a b. key_lt b a) l r
  evaluate_operator gte l r = by_order (λ a b. key_le b a) l r
  evaluate_operator lt l r = by_order key_lt l r
  evaluate_operator lte l r = by_order key_le l r
  evaluate_operator between l r = in_bounds false l (bounds_of r)
  evaluate_operator not_between l r = in_bounds true l (bounds_of r)
  evaluate_operator date_between l r = in_bounds false l (bounds_of r)
  evaluate_operator contains l r = has_substring (plain r) (plain l)
  evaluate_operator not_contains l r = not (has_substring (plain r) (plain l))
  evaluate_operator starts_with l r = has_prefix (plain r) (plain l)
  evaluate_operator ends_with l r = has_suffix (plain r) (plain l)
  evaluate_operator matches_regex l r = holds (R.search_regex (as_text r) (as_text l))
  evaluate_operator not_matches_regex l r = elim (R.search_regex (as_text r) (as_text l)) [
    | none ↦ false
    | some b ↦ not b
  ]
  evaluate_operator is_empty l r = is_blank l
  evaluate_operator is_not_empty l r = not (is_blank l)
  evaluate_operator selected l r = among (plain r) (as_list l)
  evaluate_operator includes l r = among (plain r) (as_list l)
  evaluate_operator not_selected l r = not (among (plain r) (as_list l))
  evaluate_operator not_includes l r = not (among (plain r) (as_list l))
  evaluate_operator includes_any l r = exists (λ v. among (plain v) (as_list l)) (as_list r)
  evaluate_operator includes_all l r = all_among (as_list r) (as_list l)
  evaluate_operator before l r = compare_dates ltb l r
  evaluate_operator after l r = compare_dates (λ d e. ltb e d) l r
  evaluate_operator on l r = compare_dates (λ d e. d == e) l r
  evaluate_operator before_or_equal l r = compare_dates leb l r
  evaluate_operator after_or_equal l r = compare_dates (λ d e. leb e d) l r
  evaluate_operator unknown_operator l r = false
