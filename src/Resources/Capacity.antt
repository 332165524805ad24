-- ===== src/Resources/Capacity.antt =====
-- dms/resources/resource_manager.go: no more memory or storage is allotted than is onboarded.
use device_management_servic.Common.{
  ◌+◌, ◌<◌, Result, Result-cases, ok, ◌≡◌, ap, refl, ◌∙◌, arith, inl, inr,
}
use device_management_servic.Ucan.Token.{u64_mod}
use device_management_servic.Types.Hardware.{Numbers, Resources}
use device_management_servic.Types.Hardware.Amounts.{Meter, amount}
use device_management_servic.Resources.{
  DefaultManager, get_onboarded_resources, get_total_allocation, total_committed, free_of,
  get_free_resources, share,
}
use device_management_servic.Resources.Free.{
  used, capacity, WithinCapacity, Sized, SameMaps, used-SameMaps, share-SameMaps, capacity-share,
  WithinCapacity-share, get_onboarded-SameMaps, get_onboarded-Within, get_onboarded-onboarded,
  free_of-amount, get_total_allocation-amount, total_committed-amount,
}

pub SameMaps-trans :
    {F : Type 0} (a b c : DefaultManager F) → SameMaps a b → SameMaps b c → SameMaps a c
SameMaps-trans a b c s t = record {
  same_committed = t.same_committed ∙ s.same_committed;
  same_allocations = t.same_allocations ∙ s.same_allocations;
}

module _ {F : Type 0} (numbers : Numbers F) (k : Meter) (stored : Result (Resources F))
    (d : DefaultManager F) where
  pub get_free-SameMaps : SameMaps d (get_free_resources numbers stored d).1
  unfolding get_free_resources
  get_free-SameMaps =
      let loaded = get_onboarded-SameMaps k stored d in
      elim (Result-cases (get_onboarded_resources stored d).0) [
        | inr (e, p) ↦ rw (p, get_free_resources) loaded
        | inl (r, p) ↦
            rw (p, get_free_resources)
              (SameMaps-trans d (get_onboarded_resources stored d).1 _ loaded
                (share-SameMaps k _ (get_onboarded_resources stored d).1))
      ]

  pub get_free-WithinCapacity :
      Sized k stored → WithinCapacity k d → WithinCapacity k (get_free_resources numbers stored d).1
  unfolding get_free_resources
  get_free-WithinCapacity s w =
      let loaded = get_onboarded-Within k stored d s w in
      elim (Result-cases (get_onboarded_resources stored d).0) [
        | inr (e, p) ↦ rw (p, get_free_resources) loaded
        | inl (r, p) ↦
            rw (p, get_free_resources)
              (WithinCapacity-share k _ (get_onboarded_resources stored d).1 loaded)
      ]

  -- What `GetFreeResources` has computed where it succeeds.
  pub get_free-eq-ok :
      (free : Resources F)
      → (get_free_resources numbers stored d).0 ≡ ok free
      → (r : Resources F) × ((get_onboarded_resources stored d).0 ≡ ok r)
        × (free_of numbers r
              (get_total_allocation numbers (get_onboarded_resources stored d).1)
              (total_committed numbers (get_onboarded_resources stored d).1)
            ≡ (ok tt, free))
        × ((get_free_resources numbers stored d).1
            ≡ share free.gpus (get_onboarded_resources stored d).1)
  unfolding get_free_resources
  get_free-eq-ok free h = elim (Result-cases (get_onboarded_resources stored d).0) [
    | inr (e, p) ↦ cc (rw (p, get_free_resources) at h)
    | inl (r, p) ↦
        elim (Result-cases
          (free_of numbers r (get_total_allocation numbers (get_onboarded_resources stored d).1)
            (total_committed numbers (get_onboarded_resources stored d).1)).0) [
              | inr (e, q) ↦ cc (rw (p, q, get_free_resources) at h)
              | inl (done, q) ↦
                  let f : (free_of numbers r
                        (get_total_allocation numbers (get_onboarded_resources stored d).1)
                        (total_committed numbers (get_onboarded_resources stored d).1)).1
                      ≡ free =
                    cc (rw (p, q, get_free_resources) at h) in
                  (r, p, λ i. (q i, f i), rw (p, f, get_free_resources) refl)
            ]
  ]

  -- Where `GetFreeResources` succeeds, the free memory or storage and what is committed and
  -- allocated add up to what is onboarded, as long as what is allotted fits 64 bits.
  pub get_free-amount :
      (free : Resources F)
      → used k d < u64_mod
      → (get_free_resources numbers stored d).0 ≡ ok free
      → amount k free + used k d ≡ capacity k (get_free_resources numbers stored d).1
  unfolding used capacity
  get_free-amount free w h =
      let (r, p, f, e) = get_free-eq-ok free h in
      let l = (get_onboarded_resources stored d).1 in
      let same = get_onboarded-SameMaps k stored d in
      let o : capacity k l ≡ amount k r =
        rw (get_onboarded-onboarded k stored d r p, capacity) refl in
      let c : capacity k (get_free_resources numbers stored d).1 ≡ capacity k l =
        rw e (capacity-share k free.gpus l) in
      let u = used-SameMaps k d l same in
      let small : used k l < u64_mod = omega (arith, u, w) in
      let a = get_total_allocation-amount k numbers l small in
      let b = total_committed-amount k numbers l small in
      let left =
        free_of-amount k numbers r (get_total_allocation numbers l) (total_committed numbers l)
          (ap (λ x. x.0) f) in
      let g : amount k
            (free_of numbers r (get_total_allocation numbers l) (total_committed numbers l)).1
          ≡ amount k free =
        ap (λ x. amount k x.1) f in
      omega (arith, left, g, a, b, o, c, u)
