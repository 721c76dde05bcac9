-- ===== src/Base/Text.antt =====
-- JavaScript's `s.length === 0` on texts, and keys of dictionaries.
use Prim.Native.String.{String}
use mathlib.Core.Path.{◌≡◌}
use mathlib.Core.Logic.{◌≢◌}
use Prim.Native.Char.{code}
use mathlib.Core.Bool.{Bool, false, ◌||◌}
use mathlib.Core.Option.{Option, none, some}
use package.workflowui.Base.Tests.{eqb, is_some, if◌then◌else◌}
use native.Mathlib.Omega.{arith}
use text.Mathlib.Text.{◌==◌}
use text.Mathlib.TextEquality.{eq_iff}

-- the two texts of a template, joined, which computes on a literal before any text
abbrev pub concat : String → String → String
concat String.[] t = t
concat (String.◌∷◌ c s) t = String.◌∷◌ c (concat s t)

-- a text without a prefix that it begins with
abbrev pub strip_prefix : String → String → Option String
strip_prefix String.[] s = some s
strip_prefix (String.◌∷◌ p ps) String.[] = none
strip_prefix (String.◌∷◌ p ps) (String.◌∷◌ c s) =
    if eqb (code p) (code c) then strip_prefix ps s else none

-- `s.includes(needle)`, with the needle first
abbrev pub includes : String → String → Bool
includes needle String.[] = is_some (strip_prefix needle String.[])
includes needle (String.◌∷◌ c s) =
    is_some (strip_prefix needle (String.◌∷◌ c s)) || includes needle s

pub ne_of_eq_false : (s t : String) → (s == t) ≡ false → s ≢ t
ne_of_eq_false s t h e = ground (arith, eq_iff s t)

pub eq_false_of_ne : (s t : String) → s ≢ t → (s == t) ≡ false
eq_false_of_ne s t h = ground (arith, eq_iff s t)
