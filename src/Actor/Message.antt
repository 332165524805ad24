-- ===== src/Actor/Message.antt =====
-- actor/interface.go, actor/handle.go, actor/msg.go: the envelope of a message.
use device_management_servic.Common.{ℕ, String, Bool, ◌&&◌, not, str_eq}
use device_management_servic.Ucan.Did.{Did, empty}

-- A public key is its bytes.
pub record Address : Type 0 where
  pub host_id : String
  pub inbox_address : String

pub record Handle : Type 0 where
  pub id : String
  pub did : Did
  pub address : Address

-- The part of `Envelope` that says where a message goes.
pub record Envelope : Type 0 where
  pub to : Handle
  pub behavior : String
  pub from : Handle
  pub nonce : ℕ
  pub expire : ℕ
  pub reply_to : String
  pub topic : String
  pub message : String
  pub capability : String
  pub signature : String

-- `Handle.Empty`
unfoldable pub empty_handle : Handle → Bool
empty_handle h =
    str_eq h.id ""
    && empty h.did
    && (str_eq h.address.host_id "" && str_eq h.address.inbox_address "")

-- `IsBroadcast`
unfoldable pub is_broadcast_message : Envelope → Bool
is_broadcast_message msg = empty_handle msg.to && not (str_eq msg.topic "")
