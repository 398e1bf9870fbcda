-- ===== src/Forms/Layout.antt =====
-- `compute_layout` of apps/forms/validation/conditional.py: the fields and the conditions it reads.
pub mod Pages
pub mod Passes
pub mod Compute
mod Checks
mod Tests
use srkrcc_main_application.Common.{ℕ, Bool, true, Option, none, some, List, ◌==◌, first}
use srkrcc_main_application.Forms.Conditions.{Value, missing}
use srkrcc_main_application.Forms.Conditions.Trees.{Rule, Answers}

pub data Action : Type 0 where
  show hide require optional skip_to_section end_form : Action
  set_value restrict_options display_message unknown_action : Action

-- What `normalize_conditional_logic` returns, with `_as_int` of the `action_value`.
pub record Condition : Type 0 where
  pub tree : Rule
  pub action : Action
  pub action_value : Option Value
  pub target : Option ℕ

-- What the layout reads of a `FormField`.
pub record Field : Type 0 where
  pub id : ℕ
  pub is_page_break : Bool
  pub is_required : Bool
  pub condition : Option Condition

-- `normalized.get(fid)`
unfoldable pub normalized : List Field → ℕ → Option Condition
normalized fields fid = elim (first (λ f. f.id == fid) fields) [
  | none ↦ none
  | some f ↦ f.condition
]

-- The answers that count: `{fid: v for fid, v in values.items() if fid in visible}`.
unfoldable pub effective : Answers → (ℕ → Bool) → Answers
effective values visible fid = elim (visible fid) [ true ↦ values fid | _ ↦ missing ]
