-- ===== src/Resources/Effects.antt =====
-- dms/resources/resource_manager.go: what a call changes in the two maps of the store.
use device_management_servic.Common.{
  String, Bool-cases, true, false, Option, Option-cases, none, some, str_eq, str_eq_iff, Result,
  Result-cases, ok, err, ◌≡◌, refl, arith, inl, inr,
}
use device_management_servic.Common.Map.{lookup, insert, erase, lookup-insert, lookup-erase}
use device_management_servic.Types.Hardware.{Numbers, Resources, subtract}
use device_management_servic.Types.Hardware.Amounts.{memory}
use device_management_servic.Resources.{
  Allotment, DefaultManager, is_committed, is_allocated, is_some, uncommit_resources,
  store_allocation, allocate_resources, delete_allocation, deallocate_resources, check_capacity,
  commit_resources, update_onboarded_resources, get_total_allocation,
}
use device_management_servic.Resources.Events.{
  Event, reads_free, commits, uncommits, allocates, deallocates, updates, handle,
}
use device_management_servic.Resources.Free.{SameMaps}
use device_management_servic.Resources.Capacity.{get_free-SameMaps}
use device_management_servic.Resources.Check.{check-SameMaps}

pub is_some-none : {A : Type 0} (o : Option A) → is_some o ≡ false → o ≡ none
is_some-none none h = refl
is_some-none (some a) h = cc

pub is_some-some : {A : Type 0} (o : Option A) → is_some o ≡ true → (a : A) × (o ≡ some a)
is_some-some none h = cc
is_some-some (some a) h = (a, refl)

-- A commitment stands under its own identifier.
abbrev pub Keyed : {F : Type 0} → DefaultManager F → Type 0
Keyed {F} d =
    (id : String) (c : Allotment F)
    → lookup id d.committed_resources ≡ some c
    → c.allocation_id ≡ id

-- The changes to the maps that a call may make.
pub data Effect {F : Type 0} (d e : DefaultManager F) : Type 0 where
  stays : SameMaps d e → Effect d e
  committed :
      (id : String) (c : Allotment F)
      → c.allocation_id ≡ id
      → lookup id d.committed_resources ≡ none
      → e.committed_resources ≡ insert id c d.committed_resources
      → e.allocations ≡ d.allocations
      → Effect d e
  uncommitted :
      (id : String) (c : Allotment F)
      → lookup id d.committed_resources ≡ some c
      → e.committed_resources ≡ erase id d.committed_resources
      → e.allocations ≡ d.allocations
      → Effect d e
  allocated :
      (id : String) (c a : Allotment F)
      → lookup id d.committed_resources ≡ some c
      → lookup c.allocation_id d.allocations ≡ none
      → a.resources ≡ c.resources
      → e.committed_resources ≡ erase id d.committed_resources
      → e.allocations ≡ insert id a d.allocations
      → Effect d e
  deallocated :
      (id : String) (a : Allotment F)
      → lookup id d.allocations ≡ some a
      → e.committed_resources ≡ d.committed_resources
      → e.allocations ≡ erase id d.allocations
      → Effect d e

module _ {F : Type 0} where
  stays_refl : (d : DefaultManager F) → Effect d d
  stays_refl d = stays (record { same_committed = refl; same_allocations = refl })

  uncommit-Effect : (id : String) (d : DefaultManager F) → Effect d (uncommit_resources id d).1
  unfolding uncommit_resources
  uncommit-Effect id d = elim (Bool-cases (is_committed d id)) [
    | inr gone ↦ rw (gone, uncommit_resources) (stays_refl d)
    | inl there ↦
        let (c, found) = is_some-some (lookup id d.committed_resources) there in
        rw (there, uncommit_resources) (uncommitted id c found refl refl)
  ]

  deallocate-Effect :
      (found deleted : Result (Unit {0})) (id : String) (d : DefaultManager F)
      → Effect d (deallocate_resources found deleted id d).1
  unfolding deallocate_resources delete_allocation
  deallocate-Effect found deleted id d = elim (Bool-cases (is_allocated d id)) [
    | inr gone ↦ rw (gone, deallocate_resources) (stays_refl d)
    | inl there ↦
        let (a, held) = is_some-some (lookup id d.allocations) there in
        elim (Result-cases found) [
          | inr (e, p) ↦ rw (there, p, deallocate_resources, delete_allocation) (stays_refl d)
          | inl (done, p) ↦ elim (Result-cases deleted) [
            | inr (e, q) ↦ rw (there, p, q, deallocate_resources, delete_allocation) (stays_refl d)
            | inl (done, q) ↦
                rw (there, p, q, deallocate_resources, delete_allocation)
                  (deallocated id a held refl refl)
          ]
        ]
  ]

  allocate-Effect :
      (created : Result (Unit {0})) (id : String) (d : DefaultManager F)
      → Effect d (allocate_resources created id d).1
  unfolding allocate_resources store_allocation
  allocate-Effect (err e) id d = elim (Option-cases (lookup id d.committed_resources)) [
    | inl p ↦ rw (p, allocate_resources) (stays_refl d)
    | inr (c, p) ↦ elim (Bool-cases (is_allocated d c.allocation_id)) [
      | inl twice ↦ rw (p, twice, allocate_resources) (stays_refl d)
      | inr once ↦ rw (p, once, allocate_resources) (stays_refl d)
    ]
  ]
  allocate-Effect (ok done) id d = elim (Option-cases (lookup id d.committed_resources)) [
    | inl p ↦ rw (p, allocate_resources) (stays_refl d)
    | inr (c, p) ↦ elim (Bool-cases (is_allocated d c.allocation_id)) [
      | inl twice ↦ rw (p, twice, allocate_resources) (stays_refl d)
      | inr once ↦
          rw (p, once, allocate_resources)
            (allocated id c (record { allocation_id = id; resources = c.resources }) p
              (is_some-none (lookup c.allocation_id d.allocations) once) refl refl refl)
    ]
  ]

module _ {F : Type 0} (numbers : Numbers F) where
  commit-Effect :
      (stored : Result (Resources F)) (c : Allotment F) (d : DefaultManager F)
      → Effect d (commit_resources numbers stored c d).1
  unfolding commit_resources
  commit-Effect stored c d = elim (Bool-cases (str_eq c.allocation_id "")) [
    | inl blank ↦ rw (blank, commit_resources) (stays_refl d)
    | inr named ↦ elim (Bool-cases (is_committed d c.allocation_id)) [
      | inl twice ↦ rw (named, twice, commit_resources) (stays_refl d)
      | inr once ↦
          let same = check-SameMaps numbers stored c.resources d in
          elim (Result-cases (check_capacity numbers stored c.resources d).0) [
            | inr (e, p) ↦ rw (named, once, p, commit_resources) (stays same)
            | inl (done, p) ↦
                rw (named, once, p, commit_resources)
                  (committed c.allocation_id c refl
                    (is_some-none (lookup c.allocation_id d.committed_resources) once)
                    (rw same.same_committed refl) same.same_allocations)
          ]
    ]
  ]

  -- Only the onboarded resources change.
  update-Effect :
      (saved : Result (Unit {0})) (resources : Resources F) (d : DefaultManager F)
      → Effect d (update_onboarded_resources numbers saved resources d).1
  unfolding update_onboarded_resources
  update-Effect saved resources d =
      elim (Result-cases (subtract numbers resources (get_total_allocation numbers d)).0) [
        | inr (e, p) ↦ rw (p, update_onboarded_resources) (stays_refl d)
        | inl (done, p) ↦ elim (Result-cases saved) [
          | inr (e, q) ↦ rw (p, q, update_onboarded_resources) (stays_refl d)
          | inl (kept, q) ↦
              rw (p, q, update_onboarded_resources)
                (stays (record { same_committed = refl; same_allocations = refl }))
        ]
      ]

  pub handle-Effect : (e : Event F) (d : DefaultManager F) → Effect d (handle numbers e d).1
  unfolding handle
  handle-Effect (reads_free stored) d = stays (get_free-SameMaps numbers memory stored d)
  handle-Effect (commits stored c) d = commit-Effect stored c d
  handle-Effect (uncommits id) d = uncommit-Effect id d
  handle-Effect (allocates created id) d = allocate-Effect created id d
  handle-Effect (deallocates found deleted id) d = deallocate-Effect found deleted id d
  handle-Effect (updates saved resources) d = update-Effect saved resources d

-- Every change keeps commitments under their identifiers.
Effect-Keyed : {F : Type 0} (d e : DefaultManager F) → Effect d e → Keyed d → Keyed e
Effect-Keyed d e (stays s) k id c h = k id c (rw s.same_committed at h)
Effect-Keyed d e (committed j b named fresh p q) k id c h =
    ground (arith, lookup-insert j id b d.committed_resources, str_eq_iff j id, k id c, p, h, named)
Effect-Keyed d e (uncommitted j b found p q) k id c h =
    ground (arith, lookup-erase j id d.committed_resources, str_eq_iff j id, k id c, p, h)
Effect-Keyed d e (allocated j b a found fresh same p q) k id c h =
    ground (arith, lookup-erase j id d.committed_resources, str_eq_iff j id, k id c, p, h)
Effect-Keyed d e (deallocated j a found p q) k id c h = k id c (rw p at h)

pub handle-Keyed :
    {F : Type 0} (numbers : Numbers F) (e : Event F) (d : DefaultManager F)
    → Keyed d
    → Keyed (handle numbers e d).1
handle-Keyed numbers e d = Effect-Keyed d (handle numbers e d).1 (handle-Effect numbers e d)
