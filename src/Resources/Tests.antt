-- ===== src/Resources/Tests.antt =====
-- dms/resources/resource_manager.go: examples and tests.
use device_management_servic.Common.{
  ℕ, ◌+◌, ◌-◌, ◌<◌, eq_int, ◌⊎◌, ltb, nat_eq, ◌*◌, pos, String, List, [], ◌∷◌, none, some, Result,
  ok, err, ◌≡◌, refl, arith, str_eq, str_eq_iff, no_free_resources,
}
use device_management_servic.Common.Map.{lookup, insert, erase}
use device_management_servic.Ucan.Token.{u64_mod}
use device_management_servic.Types.Hardware.{
  add, add_u64, gpus_add, gpus_add_each, gpu_add, subtract, cpu_subtract, subtract_u64,
  gpus_subtract, gpu_subtract, gpu_at, Numbers, Gpu, Resources, no_resources,
}
use device_management_servic.Types.Hardware.Amounts.{memory, amount}
use device_management_servic.Resources.{
  Allotment, DefaultManager, get_free_resources, update_onboarded_resources, updated_gpus,
  get_onboarded_resources, free_of, get_total_allocation, total_committed, add_all, share,
  check_capacity, commit_resources, allocate_resources, store_allocation, deallocate_resources,
  delete_allocation,
}
use device_management_servic.Resources.Events.{
  Event, reads_free, commits, allocates, deallocates, updates, handle, run,
}
use device_management_servic.Resources.Free.{WithinCapacity, used, capacity}
use device_management_servic.Resources.Totals.{total}
use device_management_servic.Resources.Capacity.{get_free-amount}
use device_management_servic.Resources.Update.{update_onboarded-counts_twice}
use device_management_servic.Resources.Effects.{Keyed}
use device_management_servic.Resources.Runs.{SizedEvents, run-WithinCapacity}
use device_management_servic.Resources.Lifecycle.{
  Move, phase, handle-Move, CommittedDuring, run-allocated_was_committed,
}

abbrev whole : Numbers ℕ
whole = record {
  nought = 0;
  below = ltb;
  same = nat_eq;
  times = λ a b. a * b;
  plus = λ a b. a + b;
  minus = λ a b. a - b;
}

abbrev card : ℕ → Gpu
card n = record {
  index = pos 0;
  vendor = "";
  pci_address = "";
  model = "";
  vram = n;
  cores = 0;
  uuid = "";
}

abbrev box : ℕ → ℕ → Resources ℕ
box n v = record {
  cpu = record (no_resources whole).cpu { cores = n };
  gpus = card v ∷ [];
  ram = record (no_resources whole).ram { size = n };
  disk = record (no_resources whole).disk { size = n };
}

abbrev job : String → ℕ → Allotment ℕ
job id n = record { allocation_id = id; resources = box n n }

abbrev stored : Result (Resources ℕ)
stored = ok (box 100 100)

abbrev fresh : DefaultManager ℕ
fresh = record { onboarded_resources = none; committed_resources = []; allocations = [] }

abbrev calls : List (Event ℕ)
calls =
    commits stored (job "a" 60)
    ∷ allocates (ok tt) "a"
    ∷ commits stored (job "b" 30)
    ∷ updates (ok tt) (box 200 200)
    ∷ reads_free stored
    ∷ []

calls_refused : (handle whole (commits stored (job "a" 101)) fresh).0 ≡ err no_free_resources
unfolding handle run phase used total capacity get_free_resources get_onboarded_resources free_of
    get_total_allocation total_committed add_all add add_u64 gpus_add gpus_add_each gpu_add subtract
    cpu_subtract subtract_u64 gpus_subtract gpu_subtract gpu_at share check_capacity
    commit_resources allocate_resources store_allocation deallocate_resources delete_allocation
    update_onboarded_resources eq_int str_eq lookup insert erase
calls_refused = refl

abbrev busy : DefaultManager ℕ
busy = record {
  onboarded_resources = some (box 100 100);
  committed_resources = ("b", job "b" 30) ∷ [];
  allocations = ("a", job "a" 60) ∷ [];
}

fresh-Keyed : Keyed fresh
unfolding lookup
fresh-Keyed id c h = cc

busy-Keyed : Keyed busy
unfolding lookup
busy-Keyed id c h = ground (arith, str_eq_iff "b" id)

fresh-WithinCapacity : WithinCapacity memory fresh
unfolding used capacity total
fresh-WithinCapacity = record { within = omega arith; fits = omega arith }

used-busy : used memory busy < u64_mod
unfolding used total
used-busy = omega arith

calls-SizedEvents : SizedEvents whole memory fresh calls
unfolding SizedEvents handle run phase used total capacity get_free_resources
    get_onboarded_resources free_of get_total_allocation total_committed add_all add add_u64
    gpus_add gpus_add_each gpu_add subtract cpu_subtract subtract_u64 gpus_subtract gpu_subtract
    gpu_at share check_capacity commit_resources allocate_resources store_allocation
    deallocate_resources delete_allocation update_onboarded_resources eq_int str_eq lookup insert
    erase
calls-SizedEvents = (
  omega arith,
  (tt, (omega arith, (record { ample = omega arith; small = omega arith }, (omega arith, tt)))),
)

run-WithinCapacity_example : WithinCapacity memory (run whole fresh calls)
run-WithinCapacity_example =
    run-WithinCapacity whole memory fresh calls calls-SizedEvents fresh-Keyed fresh-WithinCapacity

busy_free : (get_free_resources whole stored busy).0 ≡ ok (box 10 10)
unfolding handle run phase used total capacity get_free_resources get_onboarded_resources free_of
    get_total_allocation total_committed add_all add add_u64 gpus_add gpus_add_each gpu_add subtract
    cpu_subtract subtract_u64 gpus_subtract gpu_subtract gpu_at share check_capacity
    commit_resources allocate_resources store_allocation deallocate_resources delete_allocation
    update_onboarded_resources eq_int str_eq lookup insert erase
busy_free = refl

get_free-amount_example :
    amount memory (box 10 10) + used memory busy
    ≡ capacity memory (get_free_resources whole stored busy).1
get_free-amount_example = get_free-amount whole memory stored busy (box 10 10) used-busy busy_free

handle-Move_example :
    Move (phase busy "a") (phase (handle whole (deallocates (ok tt) (ok tt) "a") busy).1 "a")
handle-Move_example = handle-Move "a" whole (deallocates (ok tt) (ok tt) "a") busy busy-Keyed

calls_allocated : (phase (run whole fresh calls) "a").allocation ≡ some (box 60 60)
unfolding handle run phase used total capacity get_free_resources get_onboarded_resources free_of
    get_total_allocation total_committed add_all add add_u64 gpus_add gpus_add_each gpu_add subtract
    cpu_subtract subtract_u64 gpus_subtract gpu_subtract gpu_at share check_capacity
    commit_resources allocate_resources store_allocation deallocate_resources delete_allocation
    update_onboarded_resources eq_int str_eq lookup insert erase
calls_allocated = refl

run-allocated_was_committed_example :
    ((phase fresh "a").allocation ≡ some (box 60 60))
    ⊎ CommittedDuring "a" whole fresh calls (box 60 60)
run-allocated_was_committed_example =
    run-allocated_was_committed "a" whole fresh calls (box 60 60) fresh-Keyed calls_allocated

busy_updated : (update_onboarded_resources whole (ok tt) (box 200 200) busy).0 ≡ ok tt
unfolding handle run phase used total capacity get_free_resources get_onboarded_resources free_of
    get_total_allocation total_committed add_all add add_u64 gpus_add gpus_add_each gpu_add subtract
    cpu_subtract subtract_u64 gpus_subtract gpu_subtract gpu_at share check_capacity
    commit_resources allocate_resources store_allocation deallocate_resources delete_allocation
    update_onboarded_resources eq_int str_eq lookup insert erase
busy_updated = refl

busy_updated_free :
    (get_free_resources whole stored
      (update_onboarded_resources whole (ok tt) (box 200 200) busy).1).0
    ≡ ok (box 50 50)
unfolding handle run phase used total capacity get_free_resources get_onboarded_resources free_of
    get_total_allocation total_committed add_all add add_u64 gpus_add gpus_add_each gpu_add subtract
    cpu_subtract subtract_u64 gpus_subtract gpu_subtract gpu_at share check_capacity
    commit_resources allocate_resources store_allocation deallocate_resources delete_allocation
    update_onboarded_resources eq_int str_eq lookup insert erase
busy_updated_free = refl

update_onboarded-counts_twice_example :
    amount memory (box 50 50) + used memory busy + total memory busy.allocations ≡ 200
update_onboarded-counts_twice_example =
    update_onboarded-counts_twice whole memory (ok tt) (box 200 200) busy stored (box 50 50)
      used-busy busy_updated busy_updated_free

-- An update that fails for want of memory on the second GPU has written to the first.
abbrev two_cards : Gpu → Gpu → Resources ℕ
two_cards g h = record (box 200 0) { gpus = g ∷ h ∷ [] }

abbrev second : ℕ → Gpu
second n = record (card n) { index = pos 1 }

abbrev busy_twice : DefaultManager ℕ
busy_twice = record busy {
  allocations = ("a", record (job "a" 60) { resources = two_cards (card 60) (second 60) }) ∷ [];
}

update-partly :
    ((update_onboarded_resources whole (ok tt) (two_cards (card 100) (second 50)) busy_twice).1
      ≡ busy_twice)
    × (updated_gpus whole (two_cards (card 100) (second 50)) busy_twice ≡ card 40 ∷ second 50 ∷ [])
unfolding updated_gpus get_total_allocation add_all add add_u64 gpus_add gpus_add_each gpu_add
    subtract cpu_subtract subtract_u64 gpus_subtract gpu_subtract gpu_at update_onboarded_resources
    eq_int
update-partly = (refl, refl)
