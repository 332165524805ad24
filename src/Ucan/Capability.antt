-- ===== src/Ucan/Capability.antt =====
-- lib/ucan/cap.go: a capability is a path, and grants the paths below it.
pub mod Order
use Prim.Native.String
use device_management_servic.Common.{String, Bool, true, ◌||◌, str_eq, has_prefix, if◌then◌else◌}

abbrev pub Capability : Type 0
Capability = String

abbrev pub root_capability : Capability
root_capability = "/"

unfoldable pub implies : Capability → Capability → Bool
implies c other =
    if str_eq c other || str_eq c root_capability
    then true
    else has_prefix other (String.◌++◌ c "/")
