-- ===== src/Common/Text.antt =====
-- The functions of Python's `str` that the program uses and that need no table of letters.
use Prim.Native.Nat.{ℕ, zero, suc}
use Prim.Native.Char.{Char, code}
use Prim.Native.String.{String, ◌++◌}
use mathlib.Core.Bool.{Bool, true, false, not, ◌||◌, ◌&&◌}
use mathlib.Core.List.{List, [], ◌∷◌}
use text.Mathlib.Text.{◌==◌ as str_eq}
use srkrcc_main_application.Common.Tests.{leb, ◌==◌, if◌then◌else◌}

abbrev within : ℕ → ℕ → ℕ → Bool
within lo hi c = leb lo c && leb c hi

-- `c.isspace()`
unfoldable pub is_space : Char → Bool
is_space ch =
    let c = code ch in
    within 9 13 c
    || within 28 32 c
    || c == 0x85
    || c == 0xA0
    || c == 0x1680
    || within 0x2000 0x200A c
    || within 0x2028 0x2029 c
    || c == 0x202F
    || c == 0x205F
    || c == 0x3000

abbrev pub is_empty_text : String → Bool
is_empty_text String.[] = true
is_empty_text (String.◌∷◌ c s) = false

unfoldable pub strip_left : String → String
strip_left String.[] = String.[]
strip_left (String.◌∷◌ c s) = if is_space c then strip_left s else String.◌∷◌ c s

unfoldable pub strip_right : String → String
strip_right String.[] = String.[]
strip_right (String.◌∷◌ c s) =
    let rest = strip_right s in
    if is_space c && is_empty_text rest then String.[] else String.◌∷◌ c rest

-- `s.strip()`
unfoldable pub strip : String → String
unfolding strip_left strip_right is_space
strip s = strip_right (strip_left s)

abbrev begins_word : String → Bool
begins_word String.[] = false
begins_word (String.◌∷◌ c s) = not (is_space c)

abbrev glue : Char → Bool → List String → List String
glue c true (w ∷ ws) = String.◌∷◌ c w ∷ ws
glue c true [] = String.◌∷◌ c String.[] ∷ []
glue c false ws = String.◌∷◌ c String.[] ∷ ws

-- `s.split()`
unfoldable pub words : String → List String
words String.[] = []
words (String.◌∷◌ c s) =
    let rest = words s in if is_space c then rest else glue c (begins_word s) rest

-- `sep.join(ws)`
unfoldable pub join : String → List String → String
join sep [] = String.[]
join sep (w ∷ []) = w
join sep (w ∷ v ∷ ws) = w ++ (sep ++ join sep (v ∷ ws))

-- `' '.join(s.split())`
unfoldable pub squeeze : String → String
unfolding join words is_space
squeeze s = join " " (words s)

-- `''.join(s.split())`
unfoldable pub squash : String → String
unfolding join words is_space
squash s = join "" (words s)

-- `s[:n]`
unfoldable pub truncate : ℕ → String → String
truncate zero s = String.[]
truncate (suc n) String.[] = String.[]
truncate (suc n) (String.◌∷◌ c s) = String.◌∷◌ c (truncate n s)

-- `len(s)`
unfoldable pub len : String → ℕ
len String.[] = 0
len (String.◌∷◌ c s) = suc (len s)

-- `s.startswith(t)`, for texts of any letters
unfoldable pub has_prefix : String → String → Bool
has_prefix String.[] s = true
has_prefix (String.◌∷◌ d t) String.[] = false
has_prefix (String.◌∷◌ d t) (String.◌∷◌ c s) = code c == code d && has_prefix t s

-- `t in s`
unfoldable pub has_substring : String → String → Bool
unfolding has_prefix
has_substring t String.[] = is_empty_text t
has_substring t (String.◌∷◌ c s) = has_prefix t (String.◌∷◌ c s) || has_substring t s

-- `s.endswith(t)`
unfoldable pub has_suffix : String → String → Bool
has_suffix t String.[] = is_empty_text t
has_suffix t (String.◌∷◌ c s) = str_eq (String.◌∷◌ c s) t || has_suffix t s

abbrev extend : Char → List String → List String
extend c [] = String.◌∷◌ c String.[] ∷ []
extend c (w ∷ ws) = String.◌∷◌ c w ∷ ws

-- `s.split(',')`
unfoldable pub split_commas : String → List String
split_commas String.[] = String.[] ∷ []
split_commas (String.◌∷◌ c s) =
    let rest = split_commas s in if code c == 44 then String.[] ∷ rest else extend c rest
