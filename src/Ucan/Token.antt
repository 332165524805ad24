-- ===== src/Ucan/Token.antt =====
-- lib/ucan/token.go: capability tokens and the operations that only read them.
-- A Go `Token` holds a `DMSToken` or a BYO envelope, which is an empty struct that no method reads,
-- and a `DMSToken` holds a chain, which may be nil. So a token is `byo` (no `DMSToken`), `root c`
-- (claims with a nil chain) or `chained c p` (claims whose chain is the token `p`), and one
-- function stands for a method of `Token` and the method of `DMSToken` that it calls.
pub mod Links
use Prim.Native.String
use device_management_servic.Common.{
  ℕ, ◌+◌, ◌%◌, String, Bool, true, false, ◌||◌, ◌&&◌, not, List, [], Option, none, some, Result, ok,
  err, bad_token, ltb, if◌then◌else◌, ◌>>=◌, any,
}
use device_management_servic.Common.Map.{Map, lookup}
use device_management_servic.Ucan.Capability.{Capability, implies}
use device_management_servic.Ucan.Did.{Did, empty_did, equal}

-- `other_action` is any other text: `Action` is a string, and is read from the wire.
pub data Action : Type 0 where
  invoke delegate broadcast revoke : Action
  other_action : String → Action

abbrev pub is_invoke : Action → Bool
is_invoke invoke = true
is_invoke _ = false

abbrev pub is_delegate : Action → Bool
is_delegate delegate = true
is_delegate _ = false

abbrev pub is_broadcast : Action → Bool
is_broadcast broadcast = true
is_broadcast _ = false

abbrev pub is_revoke : Action → Bool
is_revoke revoke = true
is_revoke _ = false

-- The fields of `DMSToken`, less its chain.
pub record Claims : Type 0 where
  pub action : Action
  pub issuer : Did
  pub subject : Did
  pub audience : Did
  pub topic : List Capability
  pub capability : List Capability
  pub nonce : String
  pub expire : ℕ
  pub depth : ℕ
  pub signature : String

pub data Token : Type 0 where
  byo : Token
  root : Claims → Token
  chained : Claims → Token → Token

-- Accessors, with what they answer where there is no `DMSToken`.
abbrev pub issuer : Token → Did
issuer byo = empty_did
issuer (root c) = c.issuer
issuer (chained c p) = c.issuer

abbrev pub subject : Token → Did
subject byo = empty_did
subject (root c) = c.subject
subject (chained c p) = c.subject

abbrev pub audience : Token → Did
audience byo = empty_did
audience (root c) = c.audience
audience (chained c p) = c.audience

abbrev pub capability : Token → List Capability
capability byo = []
capability (root c) = c.capability
capability (chained c p) = c.capability

abbrev pub topic : Token → List Capability
topic byo = []
topic (root c) = c.topic
topic (chained c p) = c.topic

abbrev pub expire : Token → ℕ
expire byo = 0
expire (root c) = c.expire
expire (chained c p) = c.expire

abbrev pub nonce : Token → String
nonce byo = ""
nonce (root c) = c.nonce
nonce (chained c p) = c.nonce

abbrev pub action : Token → Action
action byo = other_action ""
action (root c) = c.action
action (chained c p) = c.action

-- `uint64` arithmetic.
abbrev pub u64_mod : ℕ
u64_mod = 18446744073709551616

unfoldable pub next : ℕ → ℕ
next depth = (depth + 1) % u64_mod

-- Whether the token, or one in its chain, expires before the deadline.
unfoldable pub expire_before : Token → ℕ → Bool
expire_before byo deadline = true
expire_before (root c) deadline = ltb c.expire deadline
expire_before (chained c p) deadline =
    if ltb c.expire deadline then true else expire_before p deadline

-- Whether the DID issued the token or one in its chain.
unfoldable pub anchor : Token → Did → Bool
anchor byo did = false
anchor (root c) did = equal c.issuer did
anchor (chained c p) did = if equal c.issuer did then true else anchor p did

-- The distance of the last token of the chain that the DID issued; `none` for `have = false`.
unfoldable pub anchor_depth : Token → Did → Option ℕ
anchor_depth byo did = none
anchor_depth (root c) did = if equal c.issuer did then some 0 else none
anchor_depth (chained c p) did = elim (anchor_depth p did) [
  | some d ↦ some (next d)
  | none ↦ if equal c.issuer did then some 0 else none
]

-- `max > 0 && depth > max`
abbrev pub exceeds : ℕ → ℕ → Bool
exceeds max_depth depth = ltb 0 max_depth && ltb max_depth depth

-- Whether each token of the chain allows a further token at this distance.
unfoldable pub verify_depth : Token → ℕ → Bool
verify_depth byo depth = false
verify_depth (root c) depth = not (exceeds c.depth depth)
verify_depth (chained c p) depth =
    if exceeds c.depth depth then false else verify_depth p (next depth)

-- Whether the DID issued the first token of the chain.
unfoldable pub self_signed : Token → Did → Bool
self_signed byo origin = false
self_signed (root c) origin = equal c.issuer origin
self_signed (chained c p) origin = self_signed p origin

-- The key of a token in a revocation set: `"%s#%s#%s"`.
abbrev pub key_text : Did → Did → String → String
key_text iss sub n = String.◌++◌ iss.uri (String.◌++◌ "#" (String.◌++◌ sub.uri (String.◌++◌ "#" n)))

unfoldable pub revocation_key : Token → String
revocation_key byo = ""
revocation_key (root c) = key_text c.issuer c.subject c.nonce
revocation_key (chained c p) = key_text c.issuer c.subject c.nonce

-- `RevocationSet`: revocation tokens by their key.
abbrev pub RevocationSet : Type 0
RevocationSet = Map Token

abbrev is_some {ℓ} : {A : Type ℓ} → Option A → Bool
is_some none = false
is_some (some a) = true

unfoldable pub revoked : RevocationSet → String → Bool
revoked set key = is_some (lookup key set)

without_signature : Token → Token
without_signature byo = byo
without_signature (root c) = root (record c { signature = "" })
without_signature (chained c p) = chained (record c { signature = "" }) p

abbrev pub signature_prefix : String
signature_prefix = "dms:token:"

-- The bytes that a signature is about. `marshal` stands for `json.Marshal` of a `DMSToken`.
unfoldable pub signature_data : (Token → Result String) → Token → Result String
unfolding without_signature
signature_data marshal byo = err bad_token
signature_data marshal (root c) = do
  bytes ← marshal (without_signature (root c))
  ok (String.◌++◌ signature_prefix bytes)
signature_data marshal (chained c p) = do
  bytes ← marshal (without_signature (chained c p))
  ok (String.◌++◌ signature_prefix bytes)
