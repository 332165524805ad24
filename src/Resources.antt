-- ===== src/Resources.antt =====
-- dms/resources/resource_manager.go and store.go: the resource manager, as a state with what each
-- method returns.
-- The two maps and the onboarded resources are the manager's `store`. What the database answers
-- is an argument: `stored` for `Get`, `saved`, `created`, `found` and `deleted` for the others.
-- The free resources share their slice of GPUs with the onboarded resources of the store, so that
-- a subtraction from the one changes the other: `share` writes this out.
pub mod Events
pub mod Totals
pub mod Capacity
pub mod Check
pub mod Effects
pub mod Runs
pub mod Lifecycle
pub mod Free
pub mod Update
pub mod Sharing
mod Tests
use device_management_servic.Common.{
  String, Bool, true, false, if◌then◌else◌, str_eq, List, [], ◌∷◌, Option, none, some, Result, ok,
  err, other_error, resources_not_committed, resources_already_committed, no_free_resources,
  resources_not_allocated, resources_already_allocated,
}
use device_management_servic.Common.Map.{Map, lookup, insert, erase}
use device_management_servic.Types.Hardware.{Numbers, Gpu, Resources, no_resources, add, subtract}

-- `CommittedResources` and `ResourceAllocation`
pub record Allotment (F : Type 0) : Type 0 where
  pub allocation_id : String
  pub resources : Resources F

pub record DefaultManager (F : Type 0) : Type 0 where
  pub onboarded_resources : Option (Resources F)
  pub committed_resources : Map (Allotment F)
  pub allocations : Map (Allotment F)

-- `NewResourceManager`, with `newStore`; without a hardware manager it fails.
abbrev pub new_resource_manager : {F : Type 0} → Bool → Result (DefaultManager F)
new_resource_manager false = err (other_error "hardware manager cannot be nil")
new_resource_manager true =
    ok (record { onboarded_resources = none; committed_resources = []; allocations = [] })

abbrev pub is_some {ℓ} : {A : Type ℓ} → Option A → Bool
is_some none = false
is_some (some a) = true

module _ {F : Type 0} where
  -- What `IsCommitted` and `IsAllocated` return
  abbrev pub is_committed : DefaultManager F → String → Bool
  is_committed d id = is_some (lookup id d.committed_resources)

  abbrev pub is_allocated : DefaultManager F → String → Bool
  is_allocated d id = is_some (lookup id d.allocations)

  -- `UncommitResources`
  unfoldable pub uncommit_resources :
      String → DefaultManager F → Result (Unit {0}) × DefaultManager F
  uncommit_resources id d =
      if is_committed d id
      then (ok tt, record d { committed_resources = erase id d.committed_resources })
      else (err resources_not_committed, d)

  -- `storeAllocation`
  unfoldable pub store_allocation :
      Result (Unit {0}) → Allotment F → DefaultManager F → Result (Unit {0}) × DefaultManager F
  store_allocation created a d = elim created [
    | err e ↦ (err e, d)
    | ok done ↦ (ok tt, record d { allocations = insert a.allocation_id a d.allocations })
  ]

  -- `AllocateResources`
  unfoldable pub allocate_resources :
      Result (Unit {0}) → String → DefaultManager F → Result (Unit {0}) × DefaultManager F
  unfolding store_allocation
  allocate_resources created id d = elim (lookup id d.committed_resources) [
    | none ↦ (err resources_not_committed, d)
    | some c ↦
        if is_allocated d c.allocation_id
        then (err resources_already_allocated, d)
        else (let (r, stored) =
              store_allocation created (record { allocation_id = id; resources = c.resources }) d in
            elim r [
              | err e ↦ (err e, stored)
              | ok done ↦ (
                ok tt,
                record stored { committed_resources = erase id stored.committed_resources },
              )
            ])
  ]

  -- `deleteAllocation`
  unfoldable pub delete_allocation :
      Result (Unit {0})
      → Result (Unit {0})
      → String
      → DefaultManager F
      → Result (Unit {0}) × DefaultManager F
  delete_allocation found deleted id d = elim found [
    | err e ↦ (err e, d)
    | ok done ↦ elim deleted [
      | err e ↦ (err e, d)
      | ok gone ↦ (ok tt, record d { allocations = erase id d.allocations })
    ]
  ]

  -- `DeallocateResources`
  unfoldable pub deallocate_resources :
      Result (Unit {0})
      → Result (Unit {0})
      → String
      → DefaultManager F
      → Result (Unit {0}) × DefaultManager F
  unfolding delete_allocation
  deallocate_resources found deleted id d =
      if is_allocated d id
      then delete_allocation found deleted id d
      else (err resources_not_allocated, d)

  -- `GetOnboardedResources`: it is read once from the database.
  unfoldable pub get_onboarded_resources :
      Result (Resources F) → DefaultManager F → Result (Resources F) × DefaultManager F
  get_onboarded_resources stored d = elim d.onboarded_resources [
    | some r ↦ (ok r, d)
    | none ↦ elim stored [
      | err e ↦ (err e, d)
      | ok r ↦ (ok r, record d { onboarded_resources = some r })
    ]
  ]

  -- A slice of GPUs that has changed, seen from the store.
  unfoldable pub share : List Gpu → DefaultManager F → DefaultManager F
  share gpus d = elim d.onboarded_resources [
    | none ↦ d
    | some r ↦ record d { onboarded_resources = some (record r { gpus = gpus }) }
  ]

module _ {F : Type 0} (numbers : Numbers F) where
  -- The loop of `GetTotalAllocation` and the one over the committed resources
  unfoldable pub add_all : Resources F → Map (Allotment F) → Resources F
  add_all total [] = total
  add_all total ((id, a) ∷ m) = add_all (add numbers total a.resources) m

  -- `GetTotalAllocation`: `Add` does not fail.
  unfoldable pub get_total_allocation : DefaultManager F → Resources F
  unfolding add_all
  get_total_allocation d = add_all (no_resources numbers) d.allocations

  unfoldable pub total_committed : DefaultManager F → Resources F
  unfolding add_all
  total_committed d = add_all (no_resources numbers) d.committed_resources

  -- The two subtractions of `GetFreeResources`, from what it has read
  unfoldable pub free_of : Resources F → Resources F → Resources F → Result (Unit {0}) × Resources F
  unfolding subtract
  free_of onboarded allocated committed =
      let first = subtract numbers onboarded allocated in
      elim first.0 [ err e ↦ first | ok done ↦ subtract numbers first.1 committed ]

  -- `GetFreeResources`
  unfoldable pub get_free_resources :
      Result (Resources F) → DefaultManager F → Result (Resources F) × DefaultManager F
  unfolding get_onboarded_resources get_total_allocation total_committed free_of share
  get_free_resources stored d =
      let (onboarded, loaded) = get_onboarded_resources stored d in
      elim onboarded [
        | err e ↦ (err e, loaded)
        | ok r ↦
            let left = free_of r (get_total_allocation loaded) (total_committed loaded) in
            (elim left.0 [ err e ↦ err e | ok done ↦ ok left.1 ], share left.1.gpus loaded)
      ]

  -- `checkCapacity`
  unfoldable pub check_capacity :
      Result (Resources F) → Resources F → DefaultManager F → Result (Unit {0}) × DefaultManager F
  unfolding get_free_resources subtract share
  check_capacity stored wanted d =
      let (free, seen) = get_free_resources stored d in
      elim free [
        | err e ↦ (err e, seen)
        | ok r ↦
            let left = subtract numbers r wanted in
            (
              elim left.0 [ err e ↦ err no_free_resources | ok done ↦ ok tt ],
              share left.1.gpus seen,
            )
      ]

  -- `CommitResources`, with `ValidateBasic`
  unfoldable pub commit_resources :
      Result (Resources F) → Allotment F → DefaultManager F → Result (Unit {0}) × DefaultManager F
  unfolding check_capacity
  commit_resources stored c d =
      if str_eq c.allocation_id ""
      then (err (other_error "allocation ID is required"), d)
      else if is_committed d c.allocation_id
      then (err resources_already_committed, d)
      else (let (room, seen) = check_capacity stored c.resources d in
          elim room [
            | err e ↦ (err e, seen)
            | ok done ↦ (
              ok tt,
              record seen {
                committed_resources = insert c.allocation_id c seen.committed_resources;
              },
            )
          ])

  -- What `UpdateOnboardedResources` leaves in the slice of GPUs of its caller, on success and on
  -- failure: the subtraction writes to it, up to the GPU at which it fails.
  unfoldable pub updated_gpus : Resources F → DefaultManager F → List Gpu
  unfolding get_total_allocation subtract
  updated_gpus resources d = (subtract numbers resources (get_total_allocation d)).1.gpus

  -- `UpdateOnboardedResources`, as the manager sees it
  unfoldable pub update_onboarded_resources :
      Result (Unit {0}) → Resources F → DefaultManager F → Result (Unit {0}) × DefaultManager F
  unfolding get_total_allocation subtract
  update_onboarded_resources saved resources d =
      let left = subtract numbers resources (get_total_allocation d) in
      elim left.0 [
        | err e ↦ (err e, d)
        | ok done ↦ elim saved [
          | err e ↦ (err e, d)
          | ok kept ↦ (ok tt, record d { onboarded_resources = some left.1 })
        ]
      ]
