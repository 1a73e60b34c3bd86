-- ===== src/Prelude/Text.antt =====
-- Texts of Python: code points, and a dict keyed by texts as a function.
use kairos_quant_scouts.Prelude.Tests.{if◌then◌else◌}
use Prim.Native.Nat.{ℕ}
use Prim.Native.Char.{code}
use Prim.Native.String.{String}
use mathlib.Core.Bool.{Bool, false, ◌||◌}
use mathlib.Core.List.{List, [], ◌∷◌}
use mathlib.Core.Option.{Option, none, some}
use text.Mathlib.Text.{◌==◌ as str_eq}

-- The code points of a text.
abbrev pub codes : String → List ℕ
codes String.[] = []
codes (String.◌∷◌ c s) = code c ∷ codes s

-- `symbol in (...)`
abbrev pub one_of : String → List String → Bool
one_of s [] = false
one_of s (t ∷ ts) = str_eq s t || one_of s ts

-- A dict keyed by texts.
abbrev pub Table {ℓ} : Type ℓ → Type ℓ
Table V = String → Option V

module _ {ℓ} {V : Type ℓ} where
  abbrev pub put : String → V → Table V → Table V
  put k v d j = if str_eq k j then some v else d j

  abbrev pub remove : String → Table V → Table V
  remove k d j = if str_eq k j then none else d j
