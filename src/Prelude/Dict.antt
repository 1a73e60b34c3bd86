-- ===== src/Prelude/Dict.antt =====
-- A Python dict as an association list in insertion order.
use Prim.Native.Nat.{ℕ, zero, suc, ◌-◌}
use mathlib.Core.List.{List, [], ◌∷◌}
use mathlib.Core.Option.{Option, none, some}
use kairos_quant_scouts.Prelude.Lists.{length}
use kairos_quant_scouts.Prelude.Tests.{◌==◌, ltb, if◌then◌else◌}

-- Keyed by a number, as the dicts over close times are.
abbrev pub Dict {ℓ} : Type ℓ → Type ℓ
Dict V = List (ℕ × V)

module _ {ℓ} {V : Type ℓ} where
  -- `d.get(key)`
  abbrev pub lookup : ℕ → Dict V → Option V
  lookup key [] = none
  lookup key (item ∷ items) = if key == item.0 then some item.1 else lookup key items

  -- `d.pop(key, None)`
  abbrev pub erase : ℕ → Dict V → Dict V
  erase key [] = []
  erase key (item ∷ items) = if key == item.0 then items else item ∷ erase key items

  -- `d[key] = x`, which keeps the place of a key that is there
  abbrev pub insert : ℕ → V → Dict V → Dict V
  insert key x [] = (key, x) ∷ []
  insert key x (item ∷ items) =
      if key == item.0 then (key, x) ∷ items else item ∷ insert key x items

  -- `min(d)` and `max(d)` of a dict with the first key `k`
  abbrev pub min_key : ℕ → Dict V → ℕ
  min_key k [] = k
  min_key k (e ∷ d) = min_key (if ltb e.0 k then e.0 else k) d

  abbrev pub max_key : ℕ → Dict V → ℕ
  max_key k [] = k
  max_key k (e ∷ d) = max_key (if ltb k e.0 then e.0 else k) d

  -- `d.pop(min(d))` and `d.pop(max(d))`; both are only called on a dict that is not empty
  abbrev pub pop_min : Dict V → Dict V
  pop_min [] = []
  pop_min (e ∷ d) = erase (min_key e.0 d) (e ∷ d)

  abbrev pub pop_max : Dict V → Dict V
  pop_max [] = []
  pop_max (e ∷ d) = erase (max_key e.0 d) (e ∷ d)

  -- `while len(d) > n: d.pop(min(d))`, with as many rounds as there are keys above the bound
  unfoldable pub pop_min_times : ℕ → Dict V → Dict V
  pop_min_times zero d = d
  pop_min_times (suc r) d = pop_min_times r (pop_min d)

  unfoldable pub evict : ℕ → Dict V → Dict V
  unfolding pop_min_times
  evict n d = pop_min_times (length d - n) d
