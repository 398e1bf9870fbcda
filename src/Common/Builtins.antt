-- ===== src/Common/Builtins.antt =====
-- What the program uses of Python that rests on tables or parsers of its own, and of the services
-- outside the repository. They are arguments of the model.
use Prim.Native.Nat.{ℕ}
use Prim.Native.String.{String}
use mathlib.Core.Bool.{Bool}

pub record Python : Type 0 where
  pub lower : String → String  -- `s.lower()`
  pub is_float : String → Bool  -- `float(s)` does not raise
  pub valid_email : String → Bool  -- Django's `validate_email` does not raise
  pub storage_copy : ℕ → Bool  -- the object store copies the file of this upload
