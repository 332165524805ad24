-- ===== src/Types/Tests.antt =====
-- types/comparison.go, types/hardware.go: examples.
use device_management_servic.Common.{pos, String, [], ◌∷◌, ◌++◌, ◌≡◌, inr, refl, Memᴰ}
use mathlib.Core.List.Memᴰ
use device_management_servic.Common.Map.{Map}
use device_management_servic.Types.Hardware.{Gpu}
use device_management_servic.Types.Hardware.Compare.{gpu_compare, gpus_compare, gpus_compare-single}
use device_management_servic.Types.Comparison.{
  Comparison, worse, better, none, IsGood, result, result_first,
}

abbrev memory_first : Map Comparison
memory_first = ("ram", better) ∷ []

memory_first-IsGood : (name : String) (d : Comparison) → Memᴰ (name, d) memory_first → IsGood d
memory_first-IsGood name d (Memᴰ.head e) = inr (cc)
memory_first-IsGood name d (Memᴰ.tail m) = absurd (Memᴰ.not-nil m)

result_first_example : result (memory_first ++ ("cpu", none) ∷ ("disk", worse) ∷ []) ≡ none
result_first_example =
    result_first none memory_first (("disk", worse) ∷ []) "cpu" memory_first-IsGood (inr refl)

abbrev small_gpu : Gpu
small_gpu = record {
  index = pos 0;
  vendor = "";
  pci_address = "";
  model = "";
  vram = 8;
  cores = 0;
  uuid = "";
}

gpus_compare-single_example :
    gpus_compare (small_gpu ∷ []) (small_gpu ∷ small_gpu ∷ []) ≡ gpu_compare small_gpu small_gpu
gpus_compare-single_example = gpus_compare-single small_gpu small_gpu (small_gpu ∷ [])
