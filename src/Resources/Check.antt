-- ===== src/Resources/Check.antt =====
-- dms/resources/resource_manager.go: what `checkCapacity` leaves, and when it succeeds.
use device_management_servic.Common.{◌+◌, ◌≤◌, Result, Result-cases, ok, ◌≡◌, arith, inl, inr}
use device_management_servic.Types.Hardware.{Numbers, Resources, subtract}
use device_management_servic.Types.Hardware.Amounts.{Meter, memory, amount, amount-subtract}
use device_management_servic.Resources.{DefaultManager, get_free_resources, check_capacity}
use device_management_servic.Resources.Free.{
  used, capacity, WithinCapacity, Sized, SameMaps, share-SameMaps, capacity-share,
  WithinCapacity-share,
}
use device_management_servic.Resources.Capacity.{
  SameMaps-trans, get_free-SameMaps, get_free-WithinCapacity, get_free-amount,
}

module _ {F : Type 0} (numbers : Numbers F) where
  pub check-SameMaps :
      (stored : Result (Resources F)) (wanted : Resources F) (d : DefaultManager F)
      → SameMaps d (check_capacity numbers stored wanted d).1
  unfolding check_capacity
  check-SameMaps stored wanted d =
      let seen = get_free-SameMaps numbers memory stored d in
      elim (Result-cases (get_free_resources numbers stored d).0) [
        | inr (e, p) ↦ rw (p, check_capacity) seen
        | inl (r, p) ↦
            rw (p, check_capacity)
              (SameMaps-trans d (get_free_resources numbers stored d).1 _ seen
                (share-SameMaps memory _ (get_free_resources numbers stored d).1))
      ]

  module _ (k : Meter) where
    pub check-WithinCapacity :
        (stored : Result (Resources F)) (wanted : Resources F) (d : DefaultManager F)
        → Sized k stored
        → WithinCapacity k d
        → WithinCapacity k (check_capacity numbers stored wanted d).1
    unfolding check_capacity
    check-WithinCapacity stored wanted d s w =
        let seen = get_free-WithinCapacity numbers k stored d s w in
        elim (Result-cases (get_free_resources numbers stored d).0) [
          | inr (e, p) ↦ rw (p, check_capacity) seen
          | inl (r, p) ↦
              rw (p, check_capacity)
                (WithinCapacity-share k _ (get_free_resources numbers stored d).1 seen)
        ]

    -- Where the check succeeds there is room.
    pub check-amount :
        (stored : Result (Resources F)) (wanted : Resources F) (d : DefaultManager F)
        → WithinCapacity k d
        → (check_capacity numbers stored wanted d).0 ≡ ok tt
        → amount k wanted + used k d ≤ capacity k (check_capacity numbers stored wanted d).1
    unfolding check_capacity
    check-amount stored wanted d w h = elim (Result-cases (get_free_resources numbers stored d).0) [
      | inr (e, p) ↦ cc (rw (p, check_capacity) at h)
      | inl (r, p) ↦
          let seen = (get_free_resources numbers stored d).1 in
          let free = get_free-amount numbers k stored d r (omega (arith, w.within, w.fits)) p in
          elim (Result-cases (subtract numbers r wanted).0) [
            | inr (e, q) ↦ cc (rw (p, q, check_capacity) at h)
            | inl (done, q) ↦
                let less = amount-subtract numbers k r wanted q in
                let c = capacity-share k (subtract numbers r wanted).1.gpus seen in
                rw (p, check_capacity) (omega (arith, free, less, c))
          ]
    ]
