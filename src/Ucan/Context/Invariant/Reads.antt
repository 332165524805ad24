-- ===== src/Ucan/Context/Invariant/Reads.antt =====
-- lib/ucan/context.go: the operations that leave the revocations alone keep the context sound.
use device_management_servic.Common.{
  ℕ, String, Bool, true, false, List, [], ◌∷◌, Result, inl, inr, any, ◌&&◌, Bool-cases,
  if◌then◌else◌,
}
use device_management_servic.Ucan.Capability.{Capability}
use device_management_servic.Ucan.Did.{Did, TrustContext}
use device_management_servic.Ucan.Token.{Token, anchor, RevocationSet}
use device_management_servic.Ucan.Allow.{allow_action}
use device_management_servic.Ucan.Context.State.{
  Context, get_require_tokens, get_provide_tokens, get_subject_tokens,
}
use device_management_servic.Ucan.Context.Require.{
  side_chains, accepts, accept_any, find_token, require_by,
}
use device_management_servic.Ucan.Context.Every.{Every-get_tokens}
use device_management_servic.Ucan.Context.Invariant.{Held, Chained, SoundFor}

module _ (marshal : Token → Result String) (trust : TrustContext) (now : ℕ)
    (r : RevocationSet) where
  abbrev S : Context → Type 0
  S ctx = SoundFor marshal trust now r ctx

  pub get_require_tokens-SoundFor :
      (ctx : Context) (did : Did) (at : ℕ) → S ctx → S (get_require_tokens ctx did at).1
  unfolding get_require_tokens
  get_require_tokens-SoundFor ctx did at s = record {
    known = s.known;
    tokens_sound = s.tokens_sound;
    require_sound =
        Every-get_tokens (Chained marshal trust now r) ctx.require did at s.require_sound;
    provide_sound = s.provide_sound;
  }

  pub get_provide_tokens-SoundFor :
      (ctx : Context) (did : Did) (at : ℕ) → S ctx → S (get_provide_tokens ctx did at).1
  unfolding get_provide_tokens
  get_provide_tokens-SoundFor ctx did at s = record {
    known = s.known;
    tokens_sound = s.tokens_sound;
    require_sound = s.require_sound;
    provide_sound =
        Every-get_tokens (Chained marshal trust now r) ctx.provide did at s.provide_sound;
  }

  pub get_subject_tokens-SoundFor :
      (ctx : Context) (did : Did) (at : ℕ) → S ctx → S (get_subject_tokens ctx did at).1
  unfolding get_subject_tokens
  get_subject_tokens-SoundFor ctx did at s = record {
    known = s.known;
    tokens_sound = Every-get_tokens (Held marshal trust now r) ctx.tokens did at s.tokens_sound;
    require_sound = s.require_sound;
    provide_sound = s.provide_sound;
  }

  pub side_chains-SoundFor :
      (ctx : Context) (at : ℕ) (anchors : List Did) (t : Token) (allowed : Bool)
      → S ctx
      → S (side_chains ctx at anchors t allowed).1
  unfolding side_chains
  side_chains-SoundFor ctx at [] t allowed s = s
  side_chains-SoundFor ctx at (a ∷ anchors) t allowed s =
      let s' = get_require_tokens-SoundFor ctx a at s in
      elim (Bool-cases (any (get_require_tokens ctx a at).0 (λ rt. allow_action rt t && allowed))) [
        | inl hit ↦ rw (hit, side_chains) s'
        | inr miss ↦
            rw (miss, side_chains)
              (side_chains-SoundFor (get_require_tokens ctx a at).1 at anchors t allowed s')
      ]

  -- `if found { return }`.
  or_else_SoundFor : (x y : Bool × Context) → S x.1 → S y.1 → S (if x.0 then x else y).1
  or_else_SoundFor (true, a) y p q = p
  or_else_SoundFor (false, a) y p q = q

  accepts-SoundFor :
      (ctx : Context) (at : ℕ) (anc : Did) (roots anchors : List Did) (t : Token) (allowed : Bool)
      → S ctx
      → S (accepts ctx at anc roots anchors t allowed).1
  unfolding accepts
  accepts-SoundFor ctx at anc roots anchors t allowed s =
      elim (Bool-cases (anchor t anc && allowed)) [
        | inl own ↦ rw (own, accepts) s
        | inr n ↦ elim (Bool-cases (any roots (λ d. anchor t d && allowed))) [
          | inl top ↦ rw (n, top, accepts) s
          | inr k ↦ rw (n, k, accepts) (side_chains-SoundFor ctx at anchors t allowed s)
        ]
      ]

  module _ (allows : Token → Capability → Bool) (at : ℕ) (anc : Did)
      (roots anchors : List Did) where
    accept_any-SoundFor :
        (ctx : Context) (t : Token) (caps : List Capability)
        → S ctx
        → S (accept_any allows at anc roots anchors ctx t caps).1
    unfolding accept_any
    accept_any-SoundFor ctx t [] s = s
    accept_any-SoundFor ctx t (c ∷ cs) s =
        let s' = accepts-SoundFor ctx at anc roots anchors t (allows t c) s in
        or_else_SoundFor (accepts ctx at anc roots anchors t (allows t c)) _ s'
          (accept_any-SoundFor (accepts ctx at anc roots anchors t (allows t c)).1 t cs s')

    find_token-SoundFor :
        (ctx : Context) (ts : List Token) (caps : List Capability)
        → S ctx
        → S (find_token allows at anc roots anchors ctx ts caps).1
    unfolding find_token
    find_token-SoundFor ctx [] caps s = s
    find_token-SoundFor ctx (t ∷ ts) caps s =
        let s' = accept_any-SoundFor ctx t caps s in
        or_else_SoundFor (accept_any allows at anc roots anchors ctx t caps) _ s'
          (find_token-SoundFor (accept_any allows at anc roots anchors ctx t caps).1 ts caps s')

  pub require_by-SoundFor :
      (allows : Token → Capability → Bool) (ctx : Context) (at : ℕ) (anc sub : Did)
      (caps : List Capability)
      → S ctx
      → S (require_by allows ctx at anc sub caps).1
  unfolding require_by
  require_by-SoundFor allows ctx at anc sub caps s =
      find_token-SoundFor allows at anc _ _ _ _ caps (get_subject_tokens-SoundFor ctx sub at s)
