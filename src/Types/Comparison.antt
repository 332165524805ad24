-- ===== src/Types/Comparison.antt =====
-- types/comparison.go, types/comparator.go: the outcome of comparing what a machine has with what
-- is required.
use device_management_servic.Common.{
  ℕ, String, [], ◌∷◌, ◌++◌, ltb, nat_eq, str_eq, if◌then◌else◌, ◌≡◌, ◌⊎◌, inl, inr, refl, Memᴰ,
}
use device_management_servic.Common.Map.{Map}

pub data Comparison : Type 0 where
  worse better equal none : Comparison

-- `And`
unfoldable pub and_also : Comparison → Comparison → Comparison
and_also equal d = d
and_also better better = better
and_also better worse = worse
and_also better equal = better
and_also better none = none
and_also worse d = worse
and_also none d = none

-- `ComplexComparison.Result`, from the result so far. A map is visited in any order.
unfoldable pub result_from : Comparison → Map Comparison → Comparison
result_from so_far [] = so_far
result_from so_far ((field, c) ∷ m) = result_from (and_also so_far c) m

unfoldable pub result : Map Comparison → Comparison
result m = result_from equal m

-- `NumericComparator`, on the numbers of memory and disk
unfoldable pub numeric_comparator : ℕ → ℕ → Comparison
numeric_comparator l r = if nat_eq l r then equal else if ltb l r then worse else better

-- `LiteralComparator`
unfoldable pub literal_comparator : String → String → Comparison
literal_comparator l r = if str_eq l r then equal else none

-- The comparisons that decide nothing against the machine.
abbrev pub IsGood : Comparison → Type 0
IsGood c = (c ≡ equal) ⊎ (c ≡ better)

pub and_also_assoc : (a b c : Comparison) → and_also (and_also a b) c ≡ and_also a (and_also b c)
unfolding and_also
and_also_assoc equal b c = refl
and_also_assoc better better better = refl
and_also_assoc better better worse = refl
and_also_assoc better better equal = refl
and_also_assoc better better none = refl
and_also_assoc better worse c = refl
and_also_assoc better equal c = refl
and_also_assoc better none c = refl
and_also_assoc worse b c = refl
and_also_assoc none b c = refl

-- The comparisons that decide, whatever follows.
abbrev pub IsBad : Comparison → Type 0
IsBad c = (c ≡ worse) ⊎ (c ≡ none)

bad_stays : (c : Comparison) (m : Map Comparison) → IsBad c → result_from c m ≡ c
unfolding result_from and_also
bad_stays worse [] w = refl
bad_stays none [] w = refl
bad_stays worse ((field, d) ∷ m) w = bad_stays worse m (inl refl)
bad_stays none ((field, d) ∷ m) w = bad_stays none m (inr refl)
bad_stays better m (inl h) = cc
bad_stays better m (inr h) = cc
bad_stays equal m (inl h) = cc
bad_stays equal m (inr h) = cc

good_and_bad : (a c : Comparison) → IsGood a → IsBad c → and_also a c ≡ c
unfolding and_also
good_and_bad equal c g w = refl
good_and_bad better c g (inl h) = rw h refl
good_and_bad better c g (inr h) = rw h refl
good_and_bad worse c (inl h) w = cc
good_and_bad worse c (inr h) w = cc
good_and_bad none c (inl h) w = cc
good_and_bad none c (inr h) w = cc

and_also-IsGood : (a b : Comparison) → IsGood a → IsGood b → IsGood (and_also a b)
unfolding and_also
and_also-IsGood equal b g h = h
and_also-IsGood better better g h = inr refl
and_also-IsGood better equal g h = inr refl
and_also-IsGood better worse g (inl h) = cc
and_also-IsGood better worse g (inr h) = cc
and_also-IsGood better none g (inl h) = cc
and_also-IsGood better none g (inr h) = cc
and_also-IsGood worse b (inl g) h = cc
and_also-IsGood worse b (inr g) h = cc
and_also-IsGood none b (inl g) h = cc
and_also-IsGood none b (inr g) h = cc

first_bad :
    (so_far c : Comparison) (before after : Map Comparison) (field : String)
    → IsGood so_far
    → ((name : String) (d : Comparison) → Memᴰ (name, d) before → IsGood d)
    → IsBad c
    → result_from so_far (before ++ (field, c) ∷ after) ≡ c
unfolding result_from
first_bad so_far c [] after field g good w =
    rw (result_from, good_and_bad so_far c g w) (bad_stays c after w)
first_bad so_far c ((name, d) ∷ before) after field g good w =
    first_bad (and_also so_far d) c before after field
      (and_also-IsGood so_far d g (good name d (Memᴰ.head refl))) (λ n e m. good n e (Memᴰ.tail m))
      w

-- `Result` is the first comparison that is neither `Equal` nor `Better`, so with a `Worse` and a
-- `None` it is the one that the iteration meets first.
pub result_first :
    (c : Comparison) (before after : Map Comparison) (field : String)
    → ((name : String) (d : Comparison) → Memᴰ (name, d) before → IsGood d)
    → IsBad c
    → result (before ++ (field, c) ∷ after) ≡ c
unfolding result
result_first c before after field good w = first_bad equal c before after field (inl refl) good w
