-- ===== src/Resources/Update.antt =====
-- dms/resources/resource_manager.go: what `UpdateOnboardedResources` leaves to be allotted.
use device_management_servic.Common.{
  ◌+◌, ◌<◌, Result, Result-cases, ok, some, ◌≡◌, refl, arith, inl, inr,
}
use device_management_servic.Ucan.Token.{u64_mod}
use device_management_servic.Types.Hardware.{Numbers, Resources, subtract}
use device_management_servic.Types.Hardware.Amounts.{Meter, amount, amount-subtract}
use device_management_servic.Resources.{
  DefaultManager, get_total_allocation, get_free_resources, get_onboarded_resources,
  update_onboarded_resources,
}
use device_management_servic.Resources.Totals.{total}
use device_management_servic.Resources.Free.{
  get_onboarded-onboarded, capacity-share, used, capacity, get_total_allocation-amount,
}
use device_management_servic.Resources.Capacity.{get_free-amount, get_free-eq-ok}

-- Where the resources are loaded, asking for the free ones keeps what there is.
capacity-get_free :
    {F : Type 0} (numbers : Numbers F) (k : Meter) (stored : Result (Resources F))
    (d : DefaultManager F) (r free : Resources F)
    → d.onboarded_resources ≡ some r
    → (get_free_resources numbers stored d).0 ≡ ok free
    → capacity k (get_free_resources numbers stored d).1 ≡ amount k r
unfolding get_onboarded_resources capacity
capacity-get_free numbers k stored d r free o h =
    let (s, p, f, e) = get_free-eq-ok numbers k stored d free h in
    let q : s ≡ r = cc (rw (o, get_onboarded_resources) at p) in
    let c = capacity-share k free.gpus (get_onboarded_resources stored d).1 in
    let l = get_onboarded-onboarded k stored d s p in rw (e, c, capacity, l, q) refl

module _ {F : Type 0} (numbers : Numbers F) (k : Meter) (saved : Result (Unit {0}))
    (resources : Resources F) (d : DefaultManager F) where
  -- The update stores what the allocations leave of the resources.
  update-eq-ok :
      (update_onboarded_resources numbers saved resources d).0 ≡ ok tt
      → ((subtract numbers resources (get_total_allocation numbers d)).0 ≡ ok tt)
        × ((update_onboarded_resources numbers saved resources d).1 ≡ record d {
          onboarded_resources =
              some (subtract numbers resources (get_total_allocation numbers d)).1;
        })
  unfolding update_onboarded_resources
  update-eq-ok h =
      elim (Result-cases (subtract numbers resources (get_total_allocation numbers d)).0) [
        | inr (e, p) ↦ cc (rw (p, update_onboarded_resources) at h)
        | inl (done, p) ↦ elim (Result-cases saved) [
          | inr (e, q) ↦ cc (rw (p, q, update_onboarded_resources) at h)
          | inl (kept, q) ↦ (p, rw (p, q, update_onboarded_resources) refl)
        ]
      ]

  -- After an update of the onboarded resources, the free memory and storage are the updated amount
  -- less what is committed and less twice what is allocated, as long as what is allotted fits 64
  -- bits.
  pub update_onboarded-counts_twice :
      (stored : Result (Resources F)) (free : Resources F)
      → used k d < u64_mod
      → (update_onboarded_resources numbers saved resources d).0 ≡ ok tt
      → (get_free_resources numbers stored
          (update_onboarded_resources numbers saved resources d).1).0
        ≡ ok free
      → amount k free + used k d + total k d.allocations ≡ amount k resources
  unfolding used
  update_onboarded-counts_twice stored free small h g =
      let (p, e) = update-eq-ok h in
      let a = get_total_allocation-amount k numbers d small in
      let left = amount-subtract numbers k resources (get_total_allocation numbers d) p in
      let updated = (update_onboarded_resources numbers saved resources d).1 in
      let u : used k updated ≡ used k d = rw e refl in
      let f = get_free-amount numbers k stored updated free (omega (arith, u, small)) g in
      let o : updated.onboarded_resources
          ≡ some (subtract numbers resources (get_total_allocation numbers d)).1 =
        rw e refl in
      let c = capacity-get_free numbers k stored updated _ free o g in
      omega (arith, u, f, c, a, left)
