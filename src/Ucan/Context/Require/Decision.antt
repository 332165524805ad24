-- ===== src/Ucan/Context/Require/Decision.antt =====
-- lib/ucan/context.go: what `Require` and `RequireBroadcast` decide.
use mathlib.Core.List.Memᴰ
use device_management_servic.Common.{
  ℕ, String, Bool, true, false, List, [], ◌∷◌, Result, Result-cases, ok, err, not_authorized, ◌≡◌,
  ◌↔◌, arith, inl, inr, Memᴰ, if◌then◌else◌,
}
use device_management_servic.Common.Map.{Map, lookup-keys}
use device_management_servic.Ucan.Capability.{Capability}
use device_management_servic.Ucan.Did.{Did}
use device_management_servic.Ucan.Token.{Token, expire_before}
use device_management_servic.Ucan.Allow.{allow_invocation, allow_broadcast}
use device_management_servic.Ucan.Context.State.{
  Context, dids, get_roots, get_require_anchors, get_subject_tokens,
}
use device_management_servic.Ucan.Context.State.Listed.{Under, get_tokens-Under, Under-get_tokens}
use device_management_servic.Ucan.Context.Require.{
  require_by, find_token, require_invocation, require_broadcast,
}
use device_management_servic.Ucan.Context.Require.Search.{Anchored, NamesAll, Finds, find_token_iff}

-- A live token of the subject allows one of the capabilities, and is anchored.
pub record Authorized (allows : Token → Capability → Bool) (ctx : Context) (now : ℕ) (anc sub : Did)
    (caps : List Capability) : Type 0 where
  pub token : Token
  pub held : Under ctx.tokens sub.uri token
  pub live : expire_before token now ≡ false
  pub wanted : Capability
  pub listed : Memᴰ wanted caps
  pub allowed : allows token wanted ≡ true
  pub anchored : Anchored ctx now anc (get_roots ctx) token

NamesAll-keys : (m : Map (List Token)) → NamesAll (dids m) m
NamesAll-keys m key t u = Memᴰ.map (λ k. record { uri = k }) (lookup-keys key m u.found)

ok_of_if :
    (b : Bool)
    → ◌≡◌ {A = Result (Unit {0})} (if b then ok tt else err not_authorized) (ok tt)
    → b ≡ true
ok_of_if b h = ground arith

module _ (allows : Token → Capability → Bool) (ctx : Context) (now : ℕ) (anc sub : Did)
    (caps : List Capability) where
  -- The context after the subject's tokens have been read.
  abbrev read : Context
  read = (get_subject_tokens ctx sub now).1

  search_iff :
      ((find_token allows now anc
          (get_roots read)
          (get_require_anchors read)
          read
          (get_subject_tokens ctx sub now).0
          caps).0
        ≡ true)
      ↔ Finds now anc
          (get_roots read)
          (get_require_anchors read)
          allows
          read
          (get_subject_tokens ctx sub now).0
          caps
  search_iff =
      find_token_iff now anc (get_roots read) (get_require_anchors read) allows read
        (get_subject_tokens ctx sub now).0 caps (NamesAll-keys read.require)

  require_by_sound :
      (require_by allows ctx now anc sub caps).0 ≡ ok tt → Authorized allows ctx now anc sub caps
  unfolding require_by get_subject_tokens
  require_by_sound h =
      let (t, m, (c, k, b, w)) = search_iff.0 (ok_of_if _ h) in
      let (u, e) = get_tokens-Under ctx.tokens sub now t m in
      record { token = t; held = u; live = e; wanted = c; listed = k; allowed = b; anchored = w }

  require_by_complete :
      Authorized allows ctx now anc sub caps → (require_by allows ctx now anc sub caps).0 ≡ ok tt
  unfolding require_by get_subject_tokens
  require_by_complete a = rw (
      search_iff.1 (
        a.token,
        Under-get_tokens ctx.tokens sub now a.token a.held a.live,
        (a.wanted, a.listed, a.allowed, a.anchored),
      ))

module _ (from_id : String → Result Did) (ctx : Context) (now : ℕ) (anc : Did) where
  require_invocation_sound :
      (subject audience : String) (caps : List Capability)
      → (require_invocation from_id ctx now anc subject audience caps).0 ≡ ok tt
      → (sub : Did) × (aud : Did) × (from_id subject ≡ ok sub)
        × (from_id audience ≡ ok aud)
        × Authorized (λ t c. allow_invocation t sub aud c) ctx now anc sub caps
  unfolding require_invocation
  require_invocation_sound subject audience [] h = cc
  require_invocation_sound subject audience (c ∷ cs) h = elim (Result-cases (from_id subject)) [
    | inr (e, p) ↦ cc (rw (p, require_invocation) at h)
    | inl (sub, p) ↦ elim (Result-cases (from_id audience)) [
      | inr (e, q) ↦ cc (rw (p, q, require_invocation) at h)
      | inl (aud, q) ↦ (
        sub,
        aud,
        p,
        q,
        require_by_sound (λ t d. allow_invocation t sub aud d) ctx now anc sub (c ∷ cs)
            (rw (p, q, require_invocation) at h),
      )
    ]
  ]

  require_invocation_complete :
      (subject audience : String) (caps : List Capability) (sub aud : Did)
      → from_id subject ≡ ok sub
      → from_id audience ≡ ok aud
      → Authorized (λ t c. allow_invocation t sub aud c) ctx now anc sub caps
      → (require_invocation from_id ctx now anc subject audience caps).0 ≡ ok tt
  unfolding require_invocation
  require_invocation_complete subject audience [] sub aud p q a = absurd (Memᴰ.not-nil a.listed)
  require_invocation_complete subject audience (c ∷ cs) sub aud p q a =
      rw (p, q, require_invocation)
        (require_by_complete (λ t d. allow_invocation t sub aud d) ctx now anc sub (c ∷ cs) a)

  -- `Require` succeeds exactly when both keys decode and the subject holds an unexpired token that
  -- allows it to invoke one of the required capabilities at the audience, and whose chain holds
  -- the anchor or a root of the context, or which an unexpired side chain accepts.
  pub require_invocation_iff :
      (subject audience : String) (caps : List Capability)
      → ((require_invocation from_id ctx now anc subject audience caps).0 ≡ ok tt) ↔ (
          (sub : Did) × (aud : Did) × (from_id subject ≡ ok sub)
          × (from_id audience ≡ ok aud)
          × Authorized (λ t c. allow_invocation t sub aud c) ctx now anc sub caps)
  require_invocation_iff subject audience caps = (
    require_invocation_sound subject audience caps,
    λ w. require_invocation_complete subject audience caps w.0 w.1 w.2 w.3 w.4,
  )

  require_broadcast_sound :
      (subject top : String) (caps : List Capability)
      → (require_broadcast from_id ctx now anc subject top caps).0 ≡ ok tt
      → (sub : Did) × (from_id subject ≡ ok sub)
        × Authorized (λ t c. allow_broadcast t sub top c) ctx now anc sub caps
  unfolding require_broadcast
  require_broadcast_sound subject top [] h = cc
  require_broadcast_sound subject top (c ∷ cs) h = elim (Result-cases (from_id subject)) [
    | inr (e, p) ↦ cc (rw (p, require_broadcast) at h)
    | inl (sub, p) ↦ (
      sub,
      p,
      require_by_sound (λ t d. allow_broadcast t sub top d) ctx now anc sub (c ∷ cs)
          (rw (p, require_broadcast) at h),
    )
  ]

  require_broadcast_complete :
      (subject top : String) (caps : List Capability) (sub : Did)
      → from_id subject ≡ ok sub
      → Authorized (λ t c. allow_broadcast t sub top c) ctx now anc sub caps
      → (require_broadcast from_id ctx now anc subject top caps).0 ≡ ok tt
  unfolding require_broadcast
  require_broadcast_complete subject top [] sub p a = absurd (Memᴰ.not-nil a.listed)
  require_broadcast_complete subject top (c ∷ cs) sub p a =
      rw (p, require_broadcast)
        (require_by_complete (λ t d. allow_broadcast t sub top d) ctx now anc sub (c ∷ cs) a)

  -- `RequireBroadcast` succeeds exactly when the key decodes and the subject holds an unexpired
  -- token that allows it to broadcast one of the required capabilities on the topic, and that is
  -- anchored as for `Require`.
  pub require_broadcast_iff :
      (subject top : String) (caps : List Capability)
      → ((require_broadcast from_id ctx now anc subject top caps).0 ≡ ok tt) ↔ (
          (sub : Did) × (from_id subject ≡ ok sub)
          × Authorized (λ t c. allow_broadcast t sub top c) ctx now anc sub caps)
  require_broadcast_iff subject top caps = (
    require_broadcast_sound subject top caps,
    λ w. require_broadcast_complete subject top caps w.0 w.1 w.2,
  )
