-- ===== src/Resources/Sharing.antt =====
-- dms/resources/resource_manager.go: the GPUs that the free and the onboarded resources share.
use device_management_servic.Common.{ℤ, Option, none, some}
use device_management_servic.Types.Hardware.{Gpu, Resources, gpu_at}
use device_management_servic.Resources.{DefaultManager}

-- The onboarded GPU with an index, where the resources have been read.
unfoldable pub onboarded_gpu : {F : Type 0} → DefaultManager F → ℤ → Option Gpu
unfolding gpu_at
onboarded_gpu d i = elim d.onboarded_resources [ none ↦ none | some r ↦ gpu_at i r.gpus ]
