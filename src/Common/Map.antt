-- ===== src/Common/Map.antt =====
-- Go maps with text keys, as association lists. An iteration visits the entries in the order of
-- the list; the theorems are about every list, so about every order of iteration.
use device_management_servic.Common.Tests.{str_eq, str_eq_iff, if◌then◌else◌}
use Prim.Native.String.{String}
use mathlib.Core.Path.{◌≡◌, refl, sym}
use mathlib.Core.Option.{Option, none, some}
use mathlib.Core.Bool.{Bool}
use mathlib.Core.List.{List, [], ◌∷◌, Memᴰ}
use mathlib.Core.Logic.{inl, inr}
use device_management_servic.Common.Tests.{Bool-cases, Option-cases}
use native.Mathlib.Omega.{arith}

abbrev pub Map {ℓ} : Type ℓ → Type ℓ
Map V = List (String × V)

module _ {ℓ} {V : Type ℓ} where
  unfoldable pub lookup : String → Map V → Option V
  lookup k [] = none
  lookup k ((j, v) ∷ m) = if str_eq j k then some v else lookup k m

  unfoldable pub insert : String → V → Map V → Map V
  insert k v [] = (k, v) ∷ []
  insert k v ((j, w) ∷ m) = if str_eq j k then (k, v) ∷ m else (j, w) ∷ insert k v m

  -- `delete(m, k)`
  unfoldable pub erase : String → Map V → Map V
  erase k [] = []
  erase k ((j, w) ∷ m) = if str_eq j k then erase k m else (j, w) ∷ erase k m

  abbrev pub keys : Map V → List String
  keys [] = []
  keys ((k, v) ∷ m) = k ∷ keys m

  pub lookup-insert :
      (k j : String) (v : V) (m : Map V)
      → lookup j (insert k v m) ≡ (if str_eq k j then some v else lookup j m)
  unfolding lookup insert
  lookup-insert k j v [] = refl
  lookup-insert k j v ((i, w) ∷ m) =
      ground (arith, str_eq_iff k j, str_eq_iff i k, str_eq_iff i j, lookup-insert k j v m)

  pub lookup-erase :
      (k j : String) (m : Map V) → lookup j (erase k m) ≡ (if str_eq k j then none else lookup j m)
  unfolding lookup erase
  lookup-erase k j [] = ground arith
  lookup-erase k j ((i, w) ∷ m) =
      ground (arith, str_eq_iff k j, str_eq_iff i k, str_eq_iff i j, lookup-erase k j m)

  pub lookup-keys : (k : String) (m : Map V) {v : V} → lookup k m ≡ some v → Memᴰ k (keys m)
  unfolding lookup
  lookup-keys k [] h = absurd (ground arith)
  lookup-keys k ((j, w) ∷ m) h = elim (Bool-cases (str_eq j k)) [
    | inl same ↦ Memᴰ.head (sym ((str_eq_iff j k).0 same))
    | inr other ↦ Memᴰ.tail (lookup-keys k m (rw (other, if◌then◌else◌) at h))
  ]

  -- `for k, v := range m { m[k] = f(v) }`, over the keys.
  unfoldable pub update_keys : (V → V) → Map V → List String → Map V
  update_keys f m [] = m
  update_keys f m (k ∷ ks) = elim (lookup k m) [
    | none ↦ update_keys f m ks
    | some v ↦ update_keys f (insert k (f v) m) ks
  ]

  unfoldable pub update_all : (V → V) → Map V → Map V
  unfolding update_keys
  update_all f m = update_keys f m (keys m)

  -- `for k, v := range m { v = f(v); if gone(v) { delete(m, k) } else { m[k] = v } }`
  unfoldable pub prune_keys : (V → V) → (V → Bool) → Map V → List String → Map V
  prune_keys f gone m [] = m
  prune_keys f gone m (k ∷ ks) = elim (lookup k m) [
    | none ↦ prune_keys f gone m ks
    | some v ↦ prune_keys f gone (if gone (f v) then erase k m else insert k (f v) m) ks
  ]

  unfoldable pub prune : (V → V) → (V → Bool) → Map V → Map V
  unfolding prune_keys
  prune f gone m = prune_keys f gone m (keys m)

  -- A missing key stays missing.
  lookup-prune_keys :
      (f : V → V) (gone : V → Bool) (m : Map V) (ks : List String) (j : String)
      → lookup j m ≡ none
      → lookup j (prune_keys f gone m ks) ≡ none
  unfolding prune_keys
  lookup-prune_keys f gone m [] j h = h
  lookup-prune_keys f gone m (k ∷ ks) j h = elim (Option-cases (lookup k m)) [
    | inl p ↦ rw (p, prune_keys) (lookup-prune_keys f gone m ks j h)
    | inr (v, p) ↦
        rw (p, prune_keys)
          (lookup-prune_keys f gone (if gone (f v) then erase k m else insert k (f v) m) ks j
            (ground (arith, lookup-erase k j m, lookup-insert k j (f v) m, str_eq_iff k j)))
  ]

  pub lookup-prune :
      (f : V → V) (gone : V → Bool) (m : Map V) (j : String)
      → lookup j m ≡ none
      → lookup j (prune f gone m) ≡ none
  unfolding prune
  lookup-prune f gone m j h = lookup-prune_keys f gone m (keys m) j h
