-- ===== src/Ucan/Context/Invariant.antt =====
-- lib/ucan/context.go: every stored token has expired, or verifies against the revocations that
-- the context knows; and the token lists of `tokens` stand under the subjects of their tokens.
pub mod Reads
pub mod Consumes
pub mod Later
pub mod Roots
use device_management_servic.Common.{ℕ, String, Bool, true, false, Result, ok, ◌≡◌, ◌⊎◌}
use device_management_servic.Ucan.Did.{TrustContext}
use device_management_servic.Ucan.Token.{Token, subject, expire_before, RevocationSet}
use device_management_servic.Ucan.Verify.{verify}
use device_management_servic.Ucan.Context.State.{Context}
use device_management_servic.Ucan.Context.Every.{Every}

module _ (marshal : Token → Result String) (trust : TrustContext) (now : ℕ) where
  -- The token has expired, or verifies.
  abbrev pub Fresh : RevocationSet → Token → Type 0
  Fresh r t = (expire_before t now ≡ true) ⊎ (verify marshal trust t now r ≡ ok tt)

  -- The property of a token in `tokens`.
  abbrev pub Held : RevocationSet → String → Token → Type 0
  Held r key t = ((subject t).uri ≡ key) × Fresh r t

  -- The property of a token in `require` and `provide`.
  abbrev pub Chained : RevocationSet → String → Token → Type 0
  Chained r key t = Fresh r t

  pub record SoundFor (r : RevocationSet) (ctx : Context) : Type 0 where
    pub known : ctx.revoke ≡ r
    pub tokens_sound : Every (Held r) ctx.tokens
    pub require_sound : Every (Chained r) ctx.require
    pub provide_sound : Every (Chained r) ctx.provide

  abbrev pub IsSound : Context → Type 0
  IsSound ctx = SoundFor ctx.revoke ctx
