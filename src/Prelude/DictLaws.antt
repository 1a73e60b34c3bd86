-- ===== src/Prelude/DictLaws.antt =====
-- Laws of the dicts keyed by numbers: what can be looked up, and how many keys there are.
use Prim.Native.Nat.{ℕ, zero, suc, ◌+◌, ◌-◌, ◌≤◌, ◌<◌}
use mathlib.Core.Path.{◌≡◌, refl}
use mathlib.Core.Logic.{◌⊎◌, inl}
use mathlib.Core.List.{[], ◌∷◌}
use mathlib.Core.Option.{some}
use native.Mathlib.Omega.{arith}
use kairos_quant_scouts.Prelude.Lists.{length}
use kairos_quant_scouts.Prelude.Tests.{ltb, if◌then◌else◌}
use kairos_quant_scouts.Prelude.Dict.{
  Dict, lookup, insert, erase, min_key, max_key, pop_min, pop_max, pop_min_times, evict,
}

module _ {ℓ} {V : Type ℓ} where
  pub lookup-insert_self :
      (key : ℕ) (x : V) (items : Dict V) → lookup key (insert key x items) ≡ some x
  lookup-insert_self key x [] = ground arith
  lookup-insert_self key x (item ∷ items) = ground (arith, lookup-insert_self key x items)

  pub length-erase :
      (k : ℕ) (d : Dict V) (v : V) → lookup k d ≡ some v → length (erase k d) + 1 ≡ length d
  length-erase k [] v h = cc
  length-erase k (e ∷ d) v h = ground (arith, length-erase k d v)

  pub length-erase-le : (k : ℕ) (d : Dict V) → length (erase k d) ≤ length d
  length-erase-le k [] = omega arith
  length-erase-le k (e ∷ d) = ground (arith, length-erase-le k d)

  pub length-insert-le : (k : ℕ) (v : V) (d : Dict V) → length (insert k v d) ≤ length d + 1
  length-insert-le k v [] = omega arith
  length-insert-le k v (e ∷ d) = ground (arith, length-insert-le k v d)

  pub insert-ne-nil : (k : ℕ) (v : V) (d : Dict V) → 0 < length (insert k v d)
  insert-ne-nil k v [] = omega arith
  insert-ne-nil k v (e ∷ d) = ground arith

  -- `k in d`
  abbrev Has : ℕ → Dict V → Type 0
  Has k [] = ⊥
  Has k (e ∷ d) = (k ≡ e.0) ⊎ Has k d

  length-erase_found : (k : ℕ) (d : Dict V) → Has k d → length (erase k d) + 1 ≡ length d
  length-erase_found k [] h = absurd h
  length-erase_found k (e ∷ d) h = ground (arith, length-erase_found k d)

  min_key-Has : (k : ℕ) (d : Dict V) → (min_key k d ≡ k) ⊎ Has (min_key k d) d
  min_key-Has k [] = inl refl
  min_key-Has k (e ∷ d) = ground (arith, min_key-Has (if ltb e.0 k then e.0 else k) d)

  max_key-Has : (k : ℕ) (d : Dict V) → (max_key k d ≡ k) ⊎ Has (max_key k d) d
  max_key-Has k [] = inl refl
  max_key-Has k (e ∷ d) = ground (arith, max_key-Has (if ltb k e.0 then e.0 else k) d)

  pub length-pop_min : (d : Dict V) → length (pop_min d) ≡ length d - 1
  length-pop_min [] = omega arith
  length-pop_min (e ∷ d) =
      omega (arith, length-erase_found (min_key e.0 d) (e ∷ d) (min_key-Has e.0 d))

  pub length-pop_max : (d : Dict V) → length (pop_max d) ≡ length d - 1
  length-pop_max [] = omega arith
  length-pop_max (e ∷ d) =
      omega (arith, length-erase_found (max_key e.0 d) (e ∷ d) (max_key-Has e.0 d))

  length-pop_min_times : (n : ℕ) (d : Dict V) → length (pop_min_times n d) ≡ length d - n
  unfolding pop_min_times
  length-pop_min_times zero d = omega arith
  length-pop_min_times (suc n) d =
      omega (arith, length-pop_min d, length-pop_min_times n (pop_min d))

  -- The eviction loop ends with at most `n` keys,
  pub length-evict-le : (n : ℕ) (d : Dict V) → length (evict n d) ≤ n
  unfolding evict
  length-evict-le n d = omega (arith, length-pop_min_times (length d - n) d)

  -- and does nothing where there are no more.
  pub evict_within : (n : ℕ) (d : Dict V) → length d ≤ n → evict n d ≡ d
  unfolding evict pop_min_times
  evict_within n d h = let e : length d - n ≡ 0 = omega arith in rw e

  module _ (key : V → ℕ) where
    -- Every value stands at its own key.
    abbrev pub Keyed : Dict V → Type 0
    Keyed [] = Unit
    Keyed ((k, v) ∷ d) = (key v ≡ k) × Keyed d

module _ {ℓ} {V : Type ℓ} (key : V → ℕ) where
  pub Keyed-lookup : (k : ℕ) (d : Dict V) (v : V) → Keyed key d → lookup k d ≡ some v → key v ≡ k
  Keyed-lookup k [] v h e = cc
  Keyed-lookup k ((j, w) ∷ d) v h e = ground (arith, Keyed-lookup k d v h.1)

  pub Keyed-insert : (v : V) (d : Dict V) → Keyed key d → Keyed key (insert (key v) v d)
  Keyed-insert v [] h = (refl, tt)
  Keyed-insert v ((j, w) ∷ d) h = ground (arith, Keyed-insert v d h.1)

  pub Keyed-erase : (k : ℕ) (d : Dict V) → Keyed key d → Keyed key (erase k d)
  Keyed-erase k [] h = tt
  Keyed-erase k ((j, w) ∷ d) h = ground (arith, Keyed-erase k d h.1)

  pub Keyed-pop_max : (d : Dict V) → Keyed key d → Keyed key (pop_max d)
  Keyed-pop_max [] h = tt
  Keyed-pop_max ((j, w) ∷ d) h = Keyed-erase (max_key j d) ((j, w) ∷ d) h
