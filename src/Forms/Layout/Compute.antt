-- ===== src/Forms/Layout/Compute.antt =====
-- `compute_layout` of apps/forms/validation/conditional.py: the loop over routes, and the actions that
-- give values.
pub mod Turns
pub mod Routes
pub mod Grants
use srkrcc_main_application.Common.{
  ℕ, zero, suc, String, Bool, true, false, ◌&&◌, Option, none, some, List, [], ◌∷◌, ◌==◌, length,
  if◌then◌else◌,
}
use srkrcc_main_application.Forms.Conditions.{Value, many, Reading, rendered, values_list}
use srkrcc_main_application.Forms.Conditions.Trees.{Answers, evaluate_tree}
use srkrcc_main_application.Forms.Layout.{
  Action, set_value, restrict_options, display_message, Condition, Field, effective,
}
use srkrcc_main_application.Forms.Layout.Pages.{split_pages, skipped_pages, hidden_from}
use srkrcc_main_application.Forms.Layout.Passes.{Settling, settle}

-- `class Layout`
pub record Layout : Type 0 where
  pub visible_ids : ℕ → Bool
  pub required_overrides : ℕ → Option Bool
  pub set_values : List (ℕ × Value)
  pub allowed_options : List (ℕ × List Value)
  pub messages : List (ℕ × String)
  pub pages : List (List ℕ)
  pub skipped : ℕ → Bool

-- `Layout.effective_required`
unfoldable pub effective_required : Layout → Field → Bool
effective_required layout f = elim (layout.required_overrides f.id) [
  | none ↦ f.is_required
  | some b ↦ b
]

-- Equality of two sets of pages, none of them `n` or above.
unfoldable pub same_pages : ℕ → (ℕ → Bool) → (ℕ → Bool) → Bool
same_pages zero s t = true
same_pages (suc n) s t = (if s n then t n else if t n then false else true) && same_pages n s t

-- `payload if isinstance(payload, list) else [payload]`
abbrev pub options_of : Value → List Value
options_of (many s vs) = values_list vs
options_of v = v ∷ []

-- Whether the second action is the first, a value-style one.
abbrev pub is_value_action : Action → Action → Bool
is_value_action set_value set_value = true
is_value_action restrict_options restrict_options = true
is_value_action display_message display_message = true
is_value_action _ _ = false

-- What the loop over routes ends with.
pub record Routed : Type 0 where
  pub settled : Settling
  pub skips : ℕ → Bool

module _ (R : Reading) (fields : List Field) (values : Answers) where
  -- One turn of the loop: the fields that show where the pages `skips` are hidden.
  unfoldable pub settle_with : (ℕ → Bool) → Settling
  unfolding settle hidden_from
  settle_with skips = settle R values (hidden_from (split_pages fields) 0 skips) fields

  unfoldable pub reroute : Settling → ℕ → Bool
  unfolding skipped_pages
  reroute s = skipped_pages R fields (split_pages fields) s.visible values

  -- `for _route_pass in range(…)`
  unfoldable pub routes : ℕ → Settling → (ℕ → Bool) → Routed
  unfolding settle_with reroute same_pages
  routes zero s skips = record { settled = s; skips = skips }
  routes (suc n) s skips =
      let next = settle_with skips in
      let routed = reroute next in
      elim (same_pages (length (split_pages fields)) routed skips) [
        | true ↦ record { settled = next; skips = skips }
        | false ↦ routes n next routed
      ]

  -- The payload of a value-style action of a visible question whose condition is satisfied.
  unfoldable pub granted : Action → Settling → Field → Option Value
  unfolding effective
  granted action s f = elim (f.condition) [
    | none ↦ none
    | some c ↦
        if s.visible f.id
          && evaluate_tree R c.tree (effective values s.visible)
          && is_value_action action c.action
        then c.action_value
        else none
  ]

  unfoldable pub collect {ℓ} :
      {A : Type ℓ} → Action → (Value → A) → Settling → List Field → List (ℕ × A)
  unfolding granted
  collect action read s [] = []
  collect action read s (f ∷ fs) =
      let rest = collect action read s fs in
      elim (granted action s f) [ none ↦ rest | some payload ↦ (f.id, read payload) ∷ rest ]

  unfoldable pub compute_layout : Layout
  unfolding routes collect split_pages
  compute_layout =
      let empty : Settling = record {
        visible = λ q. false;
        overrides = λ q. none;
        changed = false;
      } in
      let result = routes (suc (length (split_pages fields))) empty (λ i. false) in
      let s = result.settled in
      record {
        visible_ids = s.visible;
        required_overrides = s.overrides;
        set_values = collect set_value (λ v. v) s fields;
        allowed_options = collect restrict_options options_of s fields;
        messages = collect display_message rendered s fields;
        pages = split_pages fields;
        skipped = result.skips;
      }
