-- ===== src/Prelude/Texts.antt =====
-- Equality of native texts, under a name of its own beside the test on numbers.
use Prim.Native.String.{String}
use mathlib.Core.Path.{◌≡◌}
use mathlib.Core.Bool.{Bool, true, false, ◌||◌}
use mathlib.Core.List.{List, [], ◌∷◌}
use text.Mathlib.Text.{◌==◌}
use text.Mathlib.TextPositions.{eq_refl}
use cogito_agent.Prelude.Tests.{if◌then◌else◌}

infix 50 ◌=s◌
abbrev pub ◌=s◌ : String → String → Bool
s =s t = s == t

pub =s_refl : (s : String) → (s =s s) ≡ true
=s_refl s = eq_refl s

-- `s in {…}` of Python, over a literal collection of texts.
abbrev pub one_of : String → List String → Bool
one_of s [] = false
one_of s (t ∷ ts) = s == t || one_of s ts

-- `a or b` of Python on texts: the second where the first is empty.
abbrev pub or_else : String → String → String
or_else a b = if a =s "" then b else a
