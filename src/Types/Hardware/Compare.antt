-- ===== src/Types/Hardware/Compare.antt =====
-- types/hardware.go, types/resources.go, types/utils.go: comparing a machine (left) with what is
-- required (right). No comparison returns an error.
use device_management_servic.Common.{
  ℕ, suc, zero, ◌≡◌, refl, Bool, Bool-cases, true, false, ◌&&◌, List, [], ◌∷◌, Option, none, some,
  Result, ok, err, other_error, eq_int, nat_eq, str_eq, ltb, length, any, all, if◌then◌else◌, inl,
  inr, map, ℤ,
}
use device_management_servic.Types.Comparison.{
  Comparison, worse, better, equal, and_also, numeric_comparator,
}
use device_management_servic.Types.Hardware.{Numbers, Cpu, Gpu, Resources}

-- `GPU.Compare`
unfoldable pub gpu_compare : Gpu → Gpu → Comparison
gpu_compare g other =
    if ltb other.vram g.vram then better else if ltb g.vram other.vram then worse else equal

abbrev pub is_comparison : Comparison → Comparison → Bool
is_comparison worse worse = true
is_comparison better better = true
is_comparison equal equal = true
is_comparison Comparison.none Comparison.none = true
is_comparison c d = false

-- The loop of `returnBestMatch`, from index `i`, with the best match so far and its index.
unfoldable pub best_match_from : ℕ → Comparison → Option ℕ → List Comparison → Comparison × Option ℕ
best_match_from i best index [] = (best, index)
best_match_from i best index (equal ∷ cs) = (equal, some i)
best_match_from i best index (better ∷ cs) =
    if is_comparison best better
    then best_match_from (suc i) best index cs
    else best_match_from (suc i) better (some i) cs
best_match_from i best index (worse ∷ cs) =
    if is_comparison best Comparison.none
    then best_match_from (suc i) worse (some i) cs
    else best_match_from (suc i) best index cs
best_match_from i best index (Comparison.none ∷ cs) = best_match_from (suc i) best index cs

-- `returnBestMatch`
unfoldable pub return_best_match : List Comparison → Comparison × Option ℕ
unfolding best_match_from
return_best_match cs = best_match_from 0 Comparison.none none cs

unfoldable pub remove_at : ℕ → List Comparison → List Comparison
remove_at i [] = []
remove_at zero (c ∷ cs) = cs
remove_at (suc i) (c ∷ cs) = c ∷ remove_at i cs

-- `removeIndex`, on one row of the matrix; out of range, and at -1, the row stays.
unfoldable pub remove_index : Option ℕ → List Comparison → List Comparison
unfolding remove_at
remove_index none cs = cs
remove_index (some i) cs = remove_at i cs

-- The indices removed from every row so far, the first one last.
unfoldable pub remove_all : List (Option ℕ) → List Comparison → List Comparison
unfolding remove_index
remove_all [] cs = cs
remove_all (i ∷ is) cs = remove_index i (remove_all is cs)

-- The second loop of `GPUs.Compare`: the best match of each row, until a row is shorter than its
-- number.
unfoldable pub final_comparison : ℕ → List (Option ℕ) → List (List Comparison) → List Comparison
unfolding remove_all return_best_match
final_comparison i removed [] = []
final_comparison i removed (row ∷ rows) =
    let c = remove_all removed row in
    let best = return_best_match c in
    let rest = final_comparison (suc i) (best.1 ∷ removed) rows in
    if ltb (length c) i then [] else best.0 ∷ rest

-- The first loop of `GPUs.Compare`: a row for each required GPU.
unfoldable pub interim_comparison : List Gpu → List Gpu → List (List Comparison)
unfolding gpu_compare
interim_comparison gpus [] = []
interim_comparison gpus (o ∷ os) = map (λ g. gpu_compare g o) gpus ∷ interim_comparison gpus os

-- `GPUs.Compare`
unfoldable pub gpus_compare : List Gpu → List Gpu → Comparison
unfolding final_comparison interim_comparison
gpus_compare [] [] = equal
gpus_compare [] (o ∷ os) = worse
gpus_compare (g ∷ gs) [] = better
gpus_compare (g ∷ gs) (o ∷ os) =
    let matches = final_comparison 0 [] (interim_comparison (g ∷ gs) (o ∷ os)) in
    if any matches (is_comparison worse)
    then worse
    else if all matches (is_comparison equal)
    then equal
    else better

-- `GPU.Equal`
unfoldable pub gpu_equal : Gpu → Gpu → Bool
gpu_equal g other =
    str_eq g.model other.model
    && nat_eq g.vram other.vram
    && nat_eq g.cores other.cores
    && eq_int g.index other.index
    && str_eq g.vendor other.vendor
    && str_eq g.pci_address other.pci_address

-- The inner loop of `GPUs.Equal`: what is unused once an equal GPU is used.
unfoldable pub use_equal : Gpu → List Gpu → Option (List Gpu)
unfolding gpu_equal
use_equal g [] = none
use_equal g (o ∷ os) =
    let rest = use_equal g os in
    if gpu_equal g o then some os else elim rest [ none ↦ none | some left ↦ some (o ∷ left) ]

-- The outer loop of `GPUs.Equal`, over the unused GPUs.
unfoldable pub all_used : List Gpu → List Gpu → Bool
unfolding use_equal
all_used [] unused = true
all_used (g ∷ gs) unused = elim (use_equal g unused) [ none ↦ false | some left ↦ all_used gs left ]

-- `GPUs.Equal`
unfoldable pub gpus_equal : List Gpu → List Gpu → Bool
unfolding all_used
gpus_equal gpus other = if nat_eq (length gpus) (length other) then all_used gpus other else false

-- `GPUs.GetWithIndex`
unfoldable pub get_with_index : List Gpu → ℤ → Result Gpu
get_with_index [] index = err (other_error "GPU not found")
get_with_index (g ∷ gs) index = if eq_int g.index index then ok g else get_with_index gs index

module _ {F : Type 0} (numbers : Numbers F) where
  -- `CPU.Compare`
  unfoldable pub cpu_compare : Cpu F → Cpu F → Comparison
  cpu_compare c other =
      let own = numbers.times c.cores c.clock_speed in
      let wanted = numbers.times other.cores other.clock_speed in
      if str_eq c.architecture other.architecture
      then (if numbers.same own wanted
          then equal
          else if numbers.below own wanted
          then worse
          else better)
      else Comparison.none

  -- `Resources.Compare`, with `RAM.Compare` and `Disk.Compare`
  unfoldable pub resources_compare : Resources F → Resources F → Comparison
  unfolding and_also cpu_compare numeric_comparator gpus_compare
  resources_compare r other =
      and_also
        (and_also
          (and_also (cpu_compare r.cpu other.cpu) (numeric_comparator r.ram.size other.ram.size))
          (numeric_comparator r.disk.size other.disk.size))
        (gpus_compare r.gpus other.gpus)

  -- `Resources.Equal`
  unfoldable pub resources_equal : Resources F → Resources F → Bool
  unfolding gpus_equal
  resources_equal r other =
      nat_eq r.ram.size other.ram.size
      && numbers.same r.cpu.cores other.cpu.cores
      && nat_eq r.disk.size other.disk.size
      && gpus_equal r.gpus other.gpus

-- A machine with one GPU is compared with the first required GPU only: that more are required
-- does not count against it.
pub gpus_compare-single :
    (g o : Gpu) (os : List Gpu) → gpus_compare (g ∷ []) (o ∷ os) ≡ gpu_compare g o
unfolding gpus_compare final_comparison interim_comparison return_best_match best_match_from
    remove_all remove_index remove_at gpu_compare
gpus_compare-single g o [] = elim (Bool-cases (ltb o.vram g.vram)) [
  | inl more ↦ rw (more) refl
  | inr most ↦ elim (Bool-cases (ltb g.vram o.vram)) [
    | inl less ↦ rw (most, less) refl
    | inr least ↦ rw (most, least) refl
  ]
]
gpus_compare-single g o (p ∷ ps) = elim (Bool-cases (ltb o.vram g.vram)) [
  | inl more ↦ rw (more) refl
  | inr most ↦ elim (Bool-cases (ltb g.vram o.vram)) [
    | inl less ↦ rw (most, less) refl
    | inr least ↦ rw (most, least) refl
  ]
]
