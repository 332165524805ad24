-- ===== src/Ucan/Verify/Need.antt =====
-- lib/ucan/token.go, `verify`: the loop that crosses off the capabilities that the chain allows.
use device_management_servic.Common.{
  Bool, true, false, ◌&&◌, List, [], ◌∷◌, ◌≡◌, ◌≢◌, ◌↔◌, ◌⊎◌, inl, inr, ap, refl, sym, subst, arith,
  if◌then◌else◌, is_nil, delete_func, Memᴰ, str_eq, str_eq_iff, Bool-cases, Memᴰ-delete_func,
  delete_func-Memᴰ,
}
use mathlib.Core.List.Memᴰ
use device_management_servic.Ucan.Capability.{Capability}

-- One round for each capability; it stops when none is left to cross off.
need_loop : (Capability → Bool) → List Capability → List Capability → List Capability
need_loop allow [] need = need
need_loop allow (c ∷ cs) need =
    let left = if allow c then delete_func need (λ oc. str_eq c oc) else need in
    let rest = need_loop allow cs left in if allow c && is_nil left then left else rest

unfoldable pub need_capability : (Capability → Bool) → List Capability → List Capability
unfolding need_loop
need_capability allow caps = need_loop allow caps caps

is_nil_iff {ℓ} : {A : Type ℓ} (xs : List A) → is_nil xs ≡ true → (a : A) → ¬ Memᴰ a xs
is_nil_iff [] h a m = Memᴰ.not-nil m
is_nil_iff (x ∷ xs) h a m = cc

nil_is_nil {ℓ} : {A : Type ℓ} (xs : List A) → ((a : A) → ¬ Memᴰ a xs) → is_nil xs ≡ true
nil_is_nil [] h = refl
nil_is_nil (x ∷ xs) h = absurd (h x (Memᴰ.head refl))

-- What one round leaves in `need`.
left_of : (Capability → Bool) → Capability → List Capability → List Capability
left_of allow c need = if allow c then delete_func need (λ oc. str_eq c oc) else need

left_of_kept :
    (allow : Capability → Bool) (c : Capability) (need : List Capability) {x : Capability}
    → Memᴰ x need
    → (allow x ≡ true) ⊎ Memᴰ x (left_of allow c need)
unfolding left_of
left_of_kept allow c need {x} m = elim (Bool-cases (allow c)) [
  | inl yes_c ↦ elim (Bool-cases (str_eq c x)) [
    | inl same ↦ inl (subst (λ y. allow y ≡ true) ((str_eq_iff c x).0 same) yes_c)
    | inr other ↦ inr (rw yes_c (delete_func-Memᴰ _ m other))
  ]
  | inr no_c ↦ inr (rw no_c m)
]

left_of_sub :
    (allow : Capability → Bool) (c : Capability) (need : List Capability) {x : Capability}
    → Memᴰ x (left_of allow c need)
    → Memᴰ x need
unfolding left_of
left_of_sub allow c need m = elim (Bool-cases (allow c)) [
  | inl yes_c ↦ (Memᴰ-delete_func need (λ oc. str_eq c oc) (rw (yes_c, if◌then◌else◌) at m)).0
  | inr no_c ↦ rw (no_c, if◌then◌else◌) at m
]

left_of_gone :
    (allow : Capability → Bool) (c : Capability) (need : List Capability) {x : Capability}
    → Memᴰ x (left_of allow c need)
    → allow x ≡ true
    → x ≢ c
unfolding left_of
left_of_gone allow c need {x} m h e = elim (Bool-cases (allow c)) [
  | inl yes_c ↦
      let q = (Memᴰ-delete_func need (λ oc. str_eq c oc) (rw (yes_c, if◌then◌else◌) at m)).1 in
      cc (q, (str_eq_iff c x).1 (sym e))
  | inr no_c ↦ cc (h, no_c, ap allow e)
]

stop_sound :
    (b : Bool) (left rest : List Capability) {x : Capability}
    → is_nil (if b && is_nil left then left else rest) ≡ true
    → Memᴰ x left
    → is_nil rest ≡ true
stop_sound b [] rest h m = absurd (Memᴰ.not-nil m)
stop_sound true (y ∷ left) rest h m = h
stop_sound false (y ∷ left) rest h m = h

stop_complete :
    (b : Bool) (left rest : List Capability)
    → is_nil rest ≡ true
    → is_nil (if b && is_nil left then left else rest) ≡ true
stop_complete b left rest h = ground arith

need_loop_sound :
    (allow : Capability → Bool) (cs need : List Capability) {x : Capability}
    → is_nil (need_loop allow cs need) ≡ true
    → Memᴰ x need
    → allow x ≡ true
unfolding need_loop left_of
need_loop_sound allow [] need {x} h m = absurd (is_nil_iff need h x m)
need_loop_sound allow (c ∷ cs) need h m = elim (left_of_kept allow c need m) [
  | inl done ↦ done
  | inr k ↦ need_loop_sound allow cs (left_of allow c need) (stop_sound (allow c) _ _ h k) k
]

need_loop_complete :
    (allow : Capability → Bool) (cs need : List Capability)
    → ((x : Capability) → Memᴰ x need → Memᴰ x cs × (allow x ≡ true))
    → is_nil (need_loop allow cs need) ≡ true
unfolding need_loop left_of
need_loop_complete allow [] need h = nil_is_nil need (λ x m. Memᴰ.not-nil (h x m).0)
need_loop_complete allow (c ∷ cs) need h =
    stop_complete (allow c) (left_of allow c need) _
      (need_loop_complete allow cs (left_of allow c need) later)
  where
    later : (x : Capability) → Memᴰ x (left_of allow c need) → Memᴰ x cs × (allow x ≡ true)
    later x m =
        let k = h x (left_of_sub allow c need m) in
        elim (Memᴰ.cases_cons k.0) [
          | inl e ↦ absurd (left_of_gone allow c need m k.1 e)
          | inr l ↦ (l, k.1)
        ]

-- The list is empty exactly when the chain allows every capability.
pub need_capability_iff :
    (allow : Capability → Bool) (caps : List Capability)
    → (is_nil (need_capability allow caps) ≡ true)
      ↔ ((x : Capability) → Memᴰ x caps → allow x ≡ true)
unfolding need_capability
need_capability_iff allow caps = (
  λ h x m. need_loop_sound allow caps caps h m,
  λ h. need_loop_complete allow caps caps (λ x m. (m, h x m)),
)
