-- ===== src/Resources/Runs.antt =====
-- dms/resources/resource_manager.go: every manager that any calls lead to keeps within capacity.
use device_management_servic.Common.{
  ◌+◌, ◌≤◌, ◌<◌, String, Bool-cases, Option-cases, none, str_eq, List, [], ◌∷◌, Result,
  Result-cases, ok, err, ◌≡◌, arith, inl, inr,
}
use device_management_servic.Common.Map.{lookup}
use device_management_servic.Ucan.Token.{u64_mod}
use device_management_servic.Types.Hardware.{Numbers, Resources, subtract}
use device_management_servic.Types.Hardware.Amounts.{Meter, amount, amount-subtract}
use device_management_servic.Resources.{
  Allotment, DefaultManager, is_committed, is_allocated, uncommit_resources, store_allocation,
  allocate_resources, delete_allocation, deallocate_resources, check_capacity, commit_resources,
  update_onboarded_resources, get_total_allocation,
}
use device_management_servic.Resources.Check.{check-SameMaps, check-WithinCapacity, check-amount}
use device_management_servic.Resources.Effects.{is_some-none, Keyed, handle-Keyed}
use device_management_servic.Resources.Events.{
  Event, reads_free, commits, uncommits, allocates, deallocates, updates, handle, run,
}
use device_management_servic.Resources.Totals.{total, total-insert, total-erase, total-erase_found}
use device_management_servic.Resources.Free.{
  used, capacity, WithinCapacity, Sized, used-SameMaps, get_total_allocation-amount,
}
use device_management_servic.Resources.Capacity.{get_free-WithinCapacity}

module _ {F : Type 0} (numbers : Numbers F) where
  module _ (k : Meter) where
    commit-WithinCapacity :
        (stored : Result (Resources F)) (c : Allotment F) (d : DefaultManager F)
        → Sized k stored
        → WithinCapacity k d
        → WithinCapacity k (commit_resources numbers stored c d).1
    unfolding commit_resources used capacity
    commit-WithinCapacity stored c d s w = elim (Bool-cases (str_eq c.allocation_id "")) [
      | inl blank ↦ rw (blank, commit_resources) w
      | inr named ↦ elim (Bool-cases (is_committed d c.allocation_id)) [
        | inl twice ↦ rw (named, twice, commit_resources) w
        | inr once ↦
            let seen = check-WithinCapacity numbers k stored c.resources d s w in
            let same = check-SameMaps numbers stored c.resources d in
            elim (Result-cases (check_capacity numbers stored c.resources d).0) [
              | inr (e, p) ↦ rw (named, once, p, commit_resources) seen
              | inl (done, p) ↦
                  let room = check-amount numbers k stored c.resources d w p in
                  let grown =
                    total-insert k c.allocation_id c
                      (check_capacity numbers stored c.resources d).1.committed_resources
                      (rw (same.same_committed)
                        (is_some-none (lookup c.allocation_id d.committed_resources) once)) in
                  let u = used-SameMaps k d (check_capacity numbers stored c.resources d).1 same in
                  rw (named, once, p, commit_resources)
                    (record { within = omega (arith, grown, room, u); fits = seen.fits })
            ]
      ]
    ]

    uncommit-WithinCapacity :
        (id : String) (d : DefaultManager F)
        → WithinCapacity k d
        → WithinCapacity k (uncommit_resources id d).1
    unfolding uncommit_resources used capacity
    uncommit-WithinCapacity id d w = elim (Bool-cases (is_committed d id)) [
      | inr gone ↦ rw (gone, uncommit_resources) w
      | inl there ↦
          let less = total-erase k id d.committed_resources in
          rw (there, uncommit_resources)
            (record { within = omega (arith, less, w.within); fits = w.fits })
    ]

    deallocate-WithinCapacity :
        (found deleted : Result (Unit {0})) (id : String) (d : DefaultManager F)
        → WithinCapacity k d
        → WithinCapacity k (deallocate_resources found deleted id d).1
    unfolding deallocate_resources delete_allocation used capacity
    deallocate-WithinCapacity (err e) deleted id d w = ground (arith, w)
    deallocate-WithinCapacity (ok done) (err e) id d w = ground (arith, w)
    deallocate-WithinCapacity (ok done) (ok gone) id d w = elim (Bool-cases (is_allocated d id)) [
      | inr gone ↦ rw (gone, deallocate_resources) w
      | inl there ↦
          let less = total-erase k id d.allocations in
          rw (there, deallocate_resources)
            (record { within = omega (arith, less, w.within); fits = w.fits })
    ]

    -- The same amount leaves one map and enters the other.
    allocate-WithinCapacity :
        (created : Result (Unit {0})) (id : String) (d : DefaultManager F)
        → Keyed d
        → WithinCapacity k d
        → WithinCapacity k (allocate_resources created id d).1
    unfolding allocate_resources store_allocation used capacity
    allocate-WithinCapacity (err e) id d keyed w =
        elim (Option-cases (lookup id d.committed_resources)) [
          | inl p ↦ rw (p, allocate_resources) w
          | inr (c, p) ↦ elim (Bool-cases (is_allocated d c.allocation_id)) [
            | inl twice ↦ rw (p, twice, allocate_resources) w
            | inr once ↦ rw (p, once, allocate_resources) w
          ]
        ]
    allocate-WithinCapacity (ok done) id d keyed w =
        elim (Option-cases (lookup id d.committed_resources)) [
          | inl p ↦ rw (p, allocate_resources) w
          | inr (c, p) ↦ elim (Bool-cases (is_allocated d c.allocation_id)) [
            | inl twice ↦ rw (p, twice, allocate_resources) w
            | inr once ↦
                let a : Allotment F = record { allocation_id = id; resources = c.resources } in
                let fresh : lookup id d.allocations ≡ none =
                  is_some-none (lookup id d.allocations) (rw (keyed id c p) at once) in
                let grown = total-insert k id a d.allocations fresh in
                let less = total-erase_found k id c d.committed_resources p in
                rw (p, once, allocate_resources)
                  (record { within = omega (arith, grown, less, w.within); fits = w.fits })
          ]
        ]

    -- Resources that hold what is committed and twice what is allocated: an update takes off what
    -- is allocated before it stores them.
    pub record Ample (resources : Resources F) (d : DefaultManager F) : Type 0 where
      pub ample : used k d + total k d.allocations ≤ amount k resources
      pub small : amount k resources < u64_mod

    update-WithinCapacity :
        (saved : Result (Unit {0})) (resources : Resources F) (d : DefaultManager F)
        → Ample resources d
        → WithinCapacity k d
        → WithinCapacity k (update_onboarded_resources numbers saved resources d).1
    unfolding update_onboarded_resources used capacity
    update-WithinCapacity saved resources d s w =
        let fits : used k d < u64_mod = omega (arith, w.within, w.fits) in
        let a = get_total_allocation-amount k numbers d fits in
        elim (Result-cases (subtract numbers resources (get_total_allocation numbers d)).0) [
          | inr (e, p) ↦ rw (p, update_onboarded_resources) w
          | inl (done, p) ↦ elim (Result-cases saved) [
            | inr (e, q) ↦ rw (p, q, update_onboarded_resources) w
            | inl (kept, q) ↦
                let left = amount-subtract numbers k resources (get_total_allocation numbers d) p in
                rw (p, q, update_onboarded_resources)
                  (record {
                    within = omega (arith, a, left, s.ample);
                    fits = omega (arith, left, s.small);
                  })
          ]
        ]

    -- What the database answers during a call has 64 bits, and an update is ample.
    abbrev pub SizedEvent : Event F → DefaultManager F → Type 0
    SizedEvent (reads_free stored) d = Sized k stored
    SizedEvent (commits stored c) d = Sized k stored
    SizedEvent (uncommits id) d = Unit
    SizedEvent (allocates created id) d = Unit
    SizedEvent (deallocates found deleted id) d = Unit
    SizedEvent (updates saved resources) d = Ample resources d

    unfoldable pub SizedEvents : DefaultManager F → List (Event F) → Type 0
    SizedEvents d [] = Unit
    SizedEvents d (e ∷ events) = SizedEvent e d × SizedEvents (handle numbers e d).1 events

    handle-WithinCapacity :
        (e : Event F) (d : DefaultManager F)
        → SizedEvent e d
        → Keyed d
        → WithinCapacity k d
        → WithinCapacity k (handle numbers e d).1
    unfolding handle
    handle-WithinCapacity (reads_free stored) d s keyed w =
        get_free-WithinCapacity numbers k stored d s w
    handle-WithinCapacity (commits stored c) d s keyed w = commit-WithinCapacity stored c d s w
    handle-WithinCapacity (uncommits id) d s keyed w = uncommit-WithinCapacity id d w
    handle-WithinCapacity (allocates created id) d s keyed w =
        allocate-WithinCapacity created id d keyed w
    handle-WithinCapacity (deallocates found deleted id) d s keyed w =
        deallocate-WithinCapacity found deleted id d w
    handle-WithinCapacity (updates saved resources) d s keyed w =
        update-WithinCapacity saved resources d s w

    -- After any calls, failed ones included, no more memory or storage is committed and allocated
    -- than is onboarded, if this was so before, commitments stood under their identifiers, the
    -- database holds 64-bit amounts, and every update of the onboarded resources gives 64-bit
    -- amounts that hold what is then committed and twice what is then allocated.
    pub run-WithinCapacity :
        (d : DefaultManager F) (events : List (Event F))
        → SizedEvents d events
        → Keyed d
        → WithinCapacity k d
        → WithinCapacity k (run numbers d events)
    unfolding run SizedEvents
    run-WithinCapacity d [] s keyed w = w
    run-WithinCapacity d (e ∷ events) s keyed w =
        run-WithinCapacity (handle numbers e d).1 events s.1 (handle-Keyed numbers e d keyed)
          (handle-WithinCapacity e d s.0 keyed w)
