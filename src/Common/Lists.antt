-- ===== src/Common/Lists.antt =====
-- Lists: Boolean tests of all or some members with what they decide, and the `slices` functions
-- that the program calls. Membership is the library's `Memᴰ`, with the place kept.
use Prim.Native.Nat.{ℕ, suc, ◌≤◌}
use mathlib.Core.Path.{◌≡◌, refl, ap}
use mathlib.Core.Logic.{◌⊎◌, inl, inr}
use mathlib.Core.Bool.{Bool, true, false, ◌&&◌, ◌||◌}
use mathlib.Core.List.{List, [], ◌∷◌, Memᴰ}
use mathlib.Core.List.Memᴰ
use native.Mathlib.Omega.{arith}
use device_management_servic.Common.Tests.{if◌then◌else◌, Bool-cases, and-true, or-true}

module _ {ℓ} {A : Type ℓ} where
  abbrev pub length : List A → ℕ
  length [] = 0
  length (x ∷ xs) = suc (length xs)

  abbrev pub any : List A → (A → Bool) → Bool
  any [] p = false
  any (x ∷ xs) p = p x || any xs p

  abbrev pub all : List A → (A → Bool) → Bool
  all [] p = true
  all (x ∷ xs) p = p x && all xs p

  abbrev pub is_nil : List A → Bool
  is_nil [] = true
  is_nil (x ∷ xs) = false

  -- `slices.DeleteFunc`: the members that pass the test go.
  unfoldable pub delete_func : List A → (A → Bool) → List A
  delete_func [] p = []
  delete_func (x ∷ xs) p = if p x then delete_func xs p else x ∷ delete_func xs p

  pub any-Memᴰ : (xs : List A) (p : A → Bool) → any xs p ≡ true → (a : A) × Memᴰ a xs × (p a ≡ true)
  any-Memᴰ [] p h = absurd (ground arith)
  any-Memᴰ (x ∷ xs) p h = elim (or-true (p x) (any xs p) h) [
    | inl here ↦ (x, Memᴰ.head refl, here)
    | inr there ↦ let (a, m, q) = any-Memᴰ xs p there in (a, Memᴰ.tail m, q)
  ]

  pub Memᴰ-any : {a : A} {xs : List A} (p : A → Bool) → Memᴰ a xs → p a ≡ true → any xs p ≡ true
  Memᴰ-any p (Memᴰ.head e) h = ground arith
  Memᴰ-any p (Memᴰ.tail m) h = ground (arith, Memᴰ-any p m h)

  pub all-Memᴰ : {a : A} {xs : List A} (p : A → Bool) → all xs p ≡ true → Memᴰ a xs → p a ≡ true
  all-Memᴰ p h (Memᴰ.head e) = ground arith
  all-Memᴰ p h (Memᴰ.tail {x} {xs} m) = all-Memᴰ p (and-true (p x) (all xs p) h).1 m

  pub Memᴰ-all : (xs : List A) (p : A → Bool) → ((a : A) → Memᴰ a xs → p a ≡ true) → all xs p ≡ true
  Memᴰ-all [] p h = refl
  Memᴰ-all (x ∷ xs) p h =
      ground
        (arith, h x (Memᴰ.head refl), Memᴰ-all xs p (λ (a : A) (m : Memᴰ a xs). h a (Memᴰ.tail m)))

  pub all-false :
      (xs : List A) (p : A → Bool) → all xs p ≡ false → (a : A) × Memᴰ a xs × (p a ≡ false)
  all-false [] p h = absurd (ground arith)
  all-false (x ∷ xs) p h = elim (Bool-cases (p x)) [
    | inl yes_x ↦ let (a, m, q) = all-false xs p (ground arith) in (a, Memᴰ.tail m, q)
    | inr no_x ↦ (x, Memᴰ.head refl, no_x)
  ]

  -- One round of `delete_func`.
  keep_cases :
      (b : Bool) {a x : A} {ys : List A}
      → Memᴰ a (if b then ys else x ∷ ys)
      → ((b ≡ false) × (a ≡ x)) ⊎ Memᴰ a ys
  keep_cases true m = inr m
  keep_cases false (Memᴰ.head e) = inl (refl, e)
  keep_cases false (Memᴰ.tail m) = inr m

  pub Memᴰ-delete_func :
      {a : A} (xs : List A) (p : A → Bool) → Memᴰ a (delete_func xs p) → Memᴰ a xs × (p a ≡ false)
  unfolding delete_func
  Memᴰ-delete_func [] p m = absurd (Memᴰ.not-nil m)
  Memᴰ-delete_func (x ∷ xs) p m = elim (keep_cases (p x) m) [
    | inl (miss, e) ↦ (Memᴰ.head e, rw e miss)
    | inr k ↦ let (l, q) = Memᴰ-delete_func xs p k in (Memᴰ.tail l, q)
  ]

  keep_later :
      (b : Bool) (x : A) {a : A} {ys : List A} → Memᴰ a ys → Memᴰ a (if b then ys else x ∷ ys)
  keep_later true x m = m
  keep_later false x m = Memᴰ.tail m

  pub delete_func-Memᴰ :
      {a : A} {xs : List A} (p : A → Bool) → Memᴰ a xs → p a ≡ false → Memᴰ a (delete_func xs p)
  unfolding delete_func
  delete_func-Memᴰ p (Memᴰ.head {x} e) h =
      let miss : p x ≡ false = rw (← e) h in rw (miss, if◌then◌else◌) (Memᴰ.head e)
  delete_func-Memᴰ p (Memᴰ.tail {x} m) h = keep_later (p x) x (delete_func-Memᴰ p m h)

  delete_func-length : (xs : List A) (p : A → Bool) → length (delete_func xs p) ≤ length xs
  unfolding delete_func
  delete_func-length [] p = omega arith
  delete_func-length (x ∷ xs) p = ground (arith, delete_func-length xs p)

  -- Where as many members are left, none has gone.
  pub delete_func-full :
      (xs : List A) (p : A → Bool)
      → length xs ≤ length (delete_func xs p)
      → (delete_func xs p ≡ xs) × ((x : A) → Memᴰ x xs → p x ≡ false)
  unfolding delete_func
  delete_func-full [] p h = (refl, λ x m. absurd (Memᴰ.not-nil m))
  delete_func-full (x ∷ xs) p h = elim (Bool-cases (p x)) [
    | inl gone ↦
        let short = delete_func-length xs p in absurd (omega (arith, rw (gone, if◌then◌else◌) at h))
    | inr stays ↦
        let (e, f) = delete_func-full xs p (ground (arith, stays)) in
        (
          rw (stays, if◌then◌else◌) (ap (λ ys. x ∷ ys) e),
          λ y m. elim (Memᴰ.cases_cons m) [ inl k ↦ rw k stays | inr k ↦ f y k ],
        )
  ]
