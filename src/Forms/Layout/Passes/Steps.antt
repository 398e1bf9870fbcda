-- ===== src/Forms/Layout/Passes/Steps.antt =====
-- One visit of a field, and one pass over the fields.
use srkrcc_main_application.Common.{
  ℕ, ◌≡◌, refl, Bool, true, false, not, Option, none, some, arith, ◌==◌, ==_refl, if◌then◌else◌,
}
use srkrcc_main_application.Forms.Layout.{
  Action, show, hide, require, optional, skip_to_section, end_form, set_value, restrict_options,
  display_message, unknown_action,
}
use srkrcc_main_application.Forms.Layout.Passes.{Settling, act}

-- Whether an action leaves its question visible, and the override it leaves.
abbrev pub shown : Action → Bool → Bool → Bool
shown show satisfied was = satisfied
shown hide satisfied was = not satisfied
shown _ satisfied was = was

abbrev pub forced : Action → Bool → Option Bool → Option Bool
forced require satisfied was = if satisfied then some true else none
forced optional satisfied was = if satisfied then some false else none
forced _ satisfied was = was

pub visible-act :
    (a : Action) (i : ℕ) (b : Bool) (s : Settling)
    → (act a i b s).visible i ≡ shown a b (s.visible i)
unfolding act
visible-act show i b s = ground (arith, ==_refl i)
visible-act hide i b s = ground (arith, ==_refl i)
visible-act require i b s = ground arith
visible-act optional i b s = ground arith
visible-act skip_to_section i b s = refl
visible-act end_form i b s = refl
visible-act set_value i b s = refl
visible-act restrict_options i b s = refl
visible-act display_message i b s = refl
visible-act unknown_action i b s = refl

pub overrides-act :
    (a : Action) (i : ℕ) (b : Bool) (s : Settling)
    → (act a i b s).overrides i ≡ forced a b (s.overrides i)
unfolding act
overrides-act show i b s = ground arith
overrides-act hide i b s = ground arith
overrides-act require i b s = ground (arith, ==_refl i)
overrides-act optional i b s = ground (arith, ==_refl i)
overrides-act skip_to_section i b s = refl
overrides-act end_form i b s = refl
overrides-act set_value i b s = refl
overrides-act restrict_options i b s = refl
overrides-act display_message i b s = refl
overrides-act unknown_action i b s = refl

pub act_elsewhere :
    (a : Action) (i q : ℕ) (b : Bool) (s : Settling)
    → (q == i) ≡ false
    → ((act a i b s).visible q ≡ s.visible q) × ((act a i b s).overrides q ≡ s.overrides q)
unfolding act
act_elsewhere show i q b s h = (ground arith, ground arith)
act_elsewhere hide i q b s h = (ground arith, ground arith)
act_elsewhere require i q b s h = (ground arith, ground arith)
act_elsewhere optional i q b s h = (ground arith, ground arith)
act_elsewhere skip_to_section i q b s h = (refl, refl)
act_elsewhere end_form i q b s h = (refl, refl)
act_elsewhere set_value i q b s h = (refl, refl)
act_elsewhere restrict_options i q b s h = (refl, refl)
act_elsewhere display_message i q b s h = (refl, refl)
act_elsewhere unknown_action i q b s h = (refl, refl)

-- No change is recorded where there is none, and there is none where none is recorded.
pub act_unchanged :
    (a : Action) (i : ℕ) (b : Bool) (s : Settling)
    → s.changed ≡ false
    → shown a b (s.visible i) ≡ s.visible i
    → forced a b (s.overrides i) ≡ s.overrides i
    → (act a i b s).changed ≡ false
unfolding act
act_unchanged show i b s h v o = ground arith
act_unchanged hide i b s h v o = ground arith
act_unchanged require i b s h v o = ground arith
act_unchanged optional i b s h v o = ground arith
act_unchanged skip_to_section i b s h v o = h
act_unchanged end_form i b s h v o = h
act_unchanged set_value i b s h v o = h
act_unchanged restrict_options i b s h v o = h
act_unchanged display_message i b s h v o = h
act_unchanged unknown_action i b s h v o = h

pub act_same :
    (a : Action) (i : ℕ) (b : Bool) (s : Settling) → (act a i b s).changed ≡ false → act a i b s ≡ s
unfolding act
act_same show i b s h = ground arith
act_same hide i b s h = ground arith
act_same require i b s h = ground arith
act_same optional i b s h = ground arith
act_same skip_to_section i b s h = refl
act_same end_form i b s h = refl
act_same set_value i b s h = refl
act_same restrict_options i b s h = refl
act_same display_message i b s h = refl
act_same unknown_action i b s h = refl
