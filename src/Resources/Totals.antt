-- ===== src/Resources/Totals.antt =====
-- dms/resources/resource_manager.go: the loops that add allotments up, in whole numbers.
use device_management_servic.Common.{
  ℕ, ◌+◌, ◌%◌, ◌≤◌, ◌<◌, String, Bool-cases, if◌then◌else◌, str_eq, [], ◌∷◌, none, some, ◌≡◌, refl,
  ◌∙◌, arith, inl, inr,
}
use device_management_servic.Common.Map.{Map, lookup, insert, erase}
use device_management_servic.Ucan.Token.{u64_mod}
use device_management_servic.Types.Hardware.{Numbers, Resources, no_resources, add}
use device_management_servic.Types.Hardware.Amounts.{Meter, amount, memory, storage, amount-add}
use device_management_servic.Resources.{Allotment, add_all}

-- What the allotments of a map hold, without wrapping around.
unfoldable pub total : {F : Type 0} → Meter → Map (Allotment F) → ℕ
total k [] = 0
total k ((id, a) ∷ m) = amount k a.resources + total k m

wrap : (a b c : ℕ) → ((a + b) % u64_mod + c) % u64_mod ≡ (a + (b + c)) % u64_mod
wrap a b c = omega arith

reduced : (a : ℕ) → a % u64_mod < u64_mod
reduced a = omega arith

module _ {F : Type 0} (k : Meter) where
  pub total-insert :
      (id : String) (a : Allotment F) (m : Map (Allotment F))
      → lookup id m ≡ none
      → total k (insert id a m) ≡ amount k a.resources + total k m
  unfolding total insert lookup
  total-insert id a [] h = refl
  total-insert id a ((j, b) ∷ m) h = ground (arith, total-insert id a m)

  pub total-erase : (id : String) (m : Map (Allotment F)) → total k (erase id m) ≤ total k m
  unfolding total erase
  total-erase id [] = omega arith
  total-erase id ((j, b) ∷ m) = ground (arith, total-erase id m)

  pub total-erase_found :
      (id : String) (a : Allotment F) (m : Map (Allotment F))
      → lookup id m ≡ some a
      → amount k a.resources + total k (erase id m) ≤ total k m
  unfolding total erase lookup
  total-erase_found id a [] h = cc
  total-erase_found id a ((j, b) ∷ m) h = elim (Bool-cases (str_eq j id)) [
    | inl same ↦
        let e : some b ≡ some a = rw (same, if◌then◌else◌) at h in
        let held : amount k b.resources ≡ amount k a.resources = cc in
        rw (same, if◌then◌else◌) (omega (arith, held, total-erase id m))
    | inr other ↦
        let less = total-erase_found id a m (rw (other, if◌then◌else◌) at h) in
        rw (other, if◌then◌else◌) (omega (arith, less))
  ]

  -- The loop wraps around as the whole sum does.
  pub add_all-total :
      (numbers : Numbers F) (acc : Resources F) (m : Map (Allotment F))
      → amount k acc < u64_mod
      → amount k (add_all numbers acc m) ≡ (amount k acc + total k m) % u64_mod
  unfolding add_all total
  add_all-total numbers acc [] h = omega (arith, h)
  add_all-total numbers acc ((id, a) ∷ m) h =
      let step = amount-add numbers k acc a.resources in
      let rest =
        add_all-total numbers (add numbers acc a.resources) m
          (rw step (reduced (amount k acc + amount k a.resources))) in
      rest ∙ rw step (wrap (amount k acc) (amount k a.resources) (total k m))

pub amount-no_resources :
    {F : Type 0} (numbers : Numbers F) (k : Meter) → amount k (no_resources numbers) ≡ 0
amount-no_resources numbers memory = refl
amount-no_resources numbers storage = refl
