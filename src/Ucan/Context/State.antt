-- ===== src/Ucan/Context/State.antt =====
-- lib/ucan/context.go: the state of `BasicCapabilityContext`, and the reading of its token lists.
-- The name, the lock and the collector's stop function have no part in what is proved. A call reads
-- the clock once: `now` is an argument. A DID is a map key by its URI.
pub mod Listed
use device_management_servic.Common.{
  ℕ, String, Bool, List, [], ◌∷◌, ◌++◌, Option, none, some, map, delete_func, if◌then◌else◌,
}
use device_management_servic.Common.Map.{Map, lookup, insert, keys}
use device_management_servic.Ucan.Did.{Did, Provider}
use device_management_servic.Ucan.Token.{Token, expire_before, RevocationSet, subject}

pub record Context : Type 0 where
  pub provider : Provider
  pub roots : Map (Unit {0})
  pub require : Map (List Token)
  pub provide : Map (List Token)
  pub tokens : Map (List Token)
  pub revoke : RevocationSet

-- `DID()`
abbrev pub context_did : Context → Did
context_did ctx = ctx.provider.did

-- The keys of a map, as DIDs: `getRoots`, `getRequireAnchors`, `getProvideAnchors`.
abbrev pub dids {ℓ} : {V : Type ℓ} → Map V → List Did
dids m = map (λ k. record { uri = k }) (keys m)

abbrev pub get_roots : Context → List Did
get_roots ctx = dids ctx.roots

abbrev pub get_require_anchors : Context → List Did
get_require_anchors ctx = dids ctx.require

abbrev pub get_provide_anchors : Context → List Did
get_provide_anchors ctx = dids ctx.provide

-- A missing list is nil.
abbrev pub or_nil : Option (List Token) → List Token
or_nil none = []
or_nil (some l) = l

-- The tokens that have not expired.
unfoldable pub live : ℕ → List Token → List Token
live now l = delete_func l (λ t. expire_before t now)

-- `getTokens`: reads a list less its expired tokens, and stores what is left.
unfoldable pub get_tokens : Map (List Token) → Did → ℕ → List Token × Map (List Token)
get_tokens m did now = elim (lookup did.uri m) [
  | none ↦ ([], m)
  | some l ↦ (live now l, insert did.uri (live now l) m)
]

unfoldable pub get_require_tokens : Context → Did → ℕ → List Token × Context
get_require_tokens ctx did now =
    let (l, m) = get_tokens ctx.require did now in (l, record ctx { require = m })

unfoldable pub get_provide_tokens : Context → Did → ℕ → List Token × Context
get_provide_tokens ctx did now =
    let (l, m) = get_tokens ctx.provide did now in (l, record ctx { provide = m })

unfoldable pub get_subject_tokens : Context → Did → ℕ → List Token × Context
get_subject_tokens ctx did now =
    let (l, m) = get_tokens ctx.tokens did now in (l, record ctx { tokens = m })
