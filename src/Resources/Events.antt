-- ===== src/Resources/Events.antt =====
-- dms/resources/resource_manager.go: the calls that a manager receives, one after another.
use device_management_servic.Common.{String, List, [], ◌∷◌, Result, ok, err}
use device_management_servic.Types.Hardware.{Numbers, Resources}
use device_management_servic.Resources.{
  Allotment, DefaultManager, uncommit_resources, allocate_resources, deallocate_resources,
  get_free_resources, commit_resources, update_onboarded_resources,
}

-- A call, with what the database answers during it.
pub data Event (F : Type 0) : Type 0 where
  reads_free : Result (Resources F) → Event F
  commits : Result (Resources F) → Allotment F → Event F
  uncommits : String → Event F
  allocates : Result (Unit {0}) → String → Event F
  deallocates : Result (Unit {0}) → Result (Unit {0}) → String → Event F
  updates : Result (Unit {0}) → Resources F → Event F

module _ {F : Type 0} (numbers : Numbers F) where
  unfoldable pub handle : Event F → DefaultManager F → Result (Unit {0}) × DefaultManager F
  handle (reads_free stored) d =
      let free = get_free_resources numbers stored d in
      (elim free.0 [ err e ↦ err e | ok r ↦ ok tt ], free.1)
  handle (commits stored c) d = commit_resources numbers stored c d
  handle (uncommits id) d = uncommit_resources id d
  handle (allocates created id) d = allocate_resources created id d
  handle (deallocates found deleted id) d = deallocate_resources found deleted id d
  handle (updates saved resources) d = update_onboarded_resources numbers saved resources d

  unfoldable pub run : DefaultManager F → List (Event F) → DefaultManager F
  unfolding handle
  run d [] = d
  run d (e ∷ events) = run (handle e d).1 events
