-- ===== src/Ucan/Did.antt =====
-- lib/did: decentralised identifiers, and the anchors and providers behind them. Resolving a DID
-- and the cryptography are not modelled: an anchor and a provider are records of their operations.
use device_management_servic.Common.{
  String, Bool, true, ◌≡◌, ◌↔◌, refl, ap, str_eq, str_eq_iff, Result,
}

pub record Did : Type 0 where
  pub uri : String

abbrev pub empty_did : Did
empty_did = record { uri = "" }

unfoldable pub equal : Did → Did → Bool
equal d other = str_eq d.uri other.uri

unfoldable pub empty : Did → Bool
empty d = str_eq d.uri ""

-- `did.Anchor`: verifies a signature on some bytes by the key of the DID.
pub record Anchor : Type 0 where
  pub verify : String → String → Result (Unit {0})

-- `did.Provider`: signs some bytes for its DID.
pub record Provider : Type 0 where
  pub did : Did
  pub sign : String → Result String

-- `did.TrustContext`, the part that the capability code calls.
pub record TrustContext : Type 0 where
  pub get_anchor : Did → Result Anchor
  pub get_provider : Did → Result Provider

pub equal_iff : (d other : Did) → (equal d other ≡ true) ↔ (d ≡ other)
unfolding equal
equal_iff d other = (
  λ h. let p = (str_eq_iff _ _).0 h in λ i. record { uri = p i },
  λ p. (str_eq_iff _ _).1 (ap (λ x. x.uri) p),
)

pub equal_refl : (d : Did) → equal d d ≡ true
equal_refl d = (equal_iff d d).1 refl
