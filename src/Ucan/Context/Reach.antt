-- ===== src/Ucan/Context/Reach.antt =====
-- lib/ucan/context.go: the contexts that a program can reach: a new context, then any sequence of
-- calls. A failed `AddRoots` is left out: it skips `cleanUpTokens`.
-- The parameters stand for `json.Marshal`, `json.Unmarshal`, `did.FromID` and the trust context.
pub mod Decided
use device_management_servic.Common.{
  ℕ, ◌≤◌, String, List, [], ◌∷◌, Result, Result-cases, ok, err, ◌≡◌, refl, sym, subst, inl, inr,
  >>=-eq-ok,
}
use device_management_servic.Common.Map.{Map, lookup}
use device_management_servic.Ucan.Capability.{Capability}
use device_management_servic.Ucan.Did.{Did, Provider, TrustContext}
use device_management_servic.Ucan.Token.{Token, RevocationSet}
use device_management_servic.Ucan.Allow.{allow_invocation, allow_broadcast}
use device_management_servic.Ucan.Context.State.{
  Context, get_require_tokens, get_provide_tokens, get_subject_tokens,
}
use device_management_servic.Ucan.Context.State.Listed.{Under}
use device_management_servic.Ucan.Context.Roots.{
  new_context, new_capability_context, add_roots, remove_roots,
}
use device_management_servic.Ucan.Context.Consume.{consume}
use device_management_servic.Ucan.Context.Discard.{discard, gc_tokens}
use device_management_servic.Ucan.Context.Require.{
  require_by, require_invocation, require_broadcast,
}
use device_management_servic.Ucan.Context.Invariant.{SoundFor, IsSound}
use device_management_servic.Ucan.Context.Invariant.Reads.{
  get_require_tokens-SoundFor, get_provide_tokens-SoundFor, get_subject_tokens-SoundFor,
  require_by-SoundFor,
}
use device_management_servic.Ucan.Context.Invariant.Consumes.{consume-SoundFor, discard-SoundFor}
use device_management_servic.Ucan.Context.Invariant.Later.{
  IsSound-later, gc_tokens-IsSound, remove_roots-IsSound,
}
use device_management_servic.Ucan.Context.Invariant.Roots.{Keyed, add_roots-IsSound}

pub no_Under : (key : String) (t : Token) → ¬ Under [] key t
unfolding lookup
no_Under key t u = cc (u.found)

module _ (marshal : Token → Result String) (unmarshal : String → Result (List Token))
    (from_id : String → Result Did) (trust : TrustContext) where
  -- One call at a time. The reads are those of `Provide`, `Delegate`, `ListRoots` and the like.
  pub data Step (now : ℕ) : Context → Context → Type 0 where
    adds :
        (ctx : Context) (roots : List Did) (require provide revoke : List Token)
        → (add_roots marshal trust now ctx roots require provide revoke).0 ≡ ok tt
        → Step now ctx (add_roots marshal trust now ctx roots require provide revoke).1
    removes :
        (ctx : Context) (roots : List Did) (require provide revoke : List Token)
        → Step now ctx (remove_roots ctx roots require provide revoke)
    consumes :
        (ctx : Context) (origin : Did) (blob : String)
        → Step now ctx (consume marshal trust now unmarshal ctx origin blob).1
    discards : (ctx : Context) (blob : String) → Step now ctx (discard unmarshal ctx blob)
    collects : (ctx : Context) → Step now ctx (gc_tokens ctx now)
    requires :
        (ctx : Context) (anc : Did) (sub aud : String) (caps : List Capability)
        → Step now ctx (require_invocation from_id ctx now anc sub aud caps).1
    hears :
        (ctx : Context) (anc : Did) (sub top : String) (caps : List Capability)
        → Step now ctx (require_broadcast from_id ctx now anc sub top caps).1
    reads_require : (ctx : Context) (did : Did) → Step now ctx (get_require_tokens ctx did now).1
    reads_provide : (ctx : Context) (did : Did) → Step now ctx (get_provide_tokens ctx did now).1
    reads_subject : (ctx : Context) (did : Did) → Step now ctx (get_subject_tokens ctx did now).1

  -- A context that calls have led to, and the time of it.
  pub data Reachable : ℕ → Context → Type 0 where
    starts : (now : ℕ) (p : Provider) → Reachable now (new_context p)
    calls :
        (now : ℕ) (ctx next : Context) → Reachable now ctx → Step now ctx next → Reachable now next
    waits : (now later : ℕ) (ctx : Context) → now ≤ later → Reachable now ctx → Reachable later ctx

  module _ (now : ℕ) where
    IsSound-of :
        (r : RevocationSet) (ctx : Context)
        → SoundFor marshal trust now r ctx
        → IsSound marshal trust now ctx
    IsSound-of r ctx s = subst (λ q. SoundFor marshal trust now q ctx) (sym s.known) s

    IsSound-Keyed : (ctx : Context) → IsSound marshal trust now ctx → Keyed ctx
    IsSound-Keyed ctx s key t u = (s.tokens_sound key t u).0

    require_invocation-IsSound :
        (ctx : Context) (anc : Did) (sub aud : String) (caps : List Capability)
        → IsSound marshal trust now ctx
        → SoundFor marshal trust now ctx.revoke
            (require_invocation from_id ctx now anc sub aud caps).1
    unfolding require_invocation
    require_invocation-IsSound ctx anc sub aud [] s = s
    require_invocation-IsSound ctx anc sub aud (c ∷ cs) s = elim (Result-cases (from_id sub)) [
      | inr (e, p) ↦ rw (p, require_invocation) s
      | inl (d, p) ↦ elim (Result-cases (from_id aud)) [
        | inr (e, q) ↦ rw (p, q, require_invocation) s
        | inl (a, q) ↦
            rw (p, q, require_invocation)
              (require_by-SoundFor marshal trust now ctx.revoke (λ t x. allow_invocation t d a x)
                ctx now anc d (c ∷ cs) s)
      ]
    ]

    require_broadcast-IsSound :
        (ctx : Context) (anc : Did) (sub top : String) (caps : List Capability)
        → IsSound marshal trust now ctx
        → SoundFor marshal trust now ctx.revoke
            (require_broadcast from_id ctx now anc sub top caps).1
    unfolding require_broadcast
    require_broadcast-IsSound ctx anc sub top [] s = s
    require_broadcast-IsSound ctx anc sub top (c ∷ cs) s = elim (Result-cases (from_id sub)) [
      | inr (e, p) ↦ rw (p, require_broadcast) s
      | inl (d, p) ↦
          rw (p, require_broadcast)
            (require_by-SoundFor marshal trust now ctx.revoke (λ t x. allow_broadcast t d top x) ctx
              now anc d (c ∷ cs) s)
    ]

    -- Every call keeps a context sound.
    pub Step-IsSound :
        (ctx next : Context)
        → Step now ctx next
        → IsSound marshal trust now ctx
        → IsSound marshal trust now next
    Step-IsSound ctx next (adds _ roots require provide revoke h) s =
        add_roots-IsSound marshal trust now ctx roots require provide revoke (IsSound-Keyed ctx s) h
    Step-IsSound ctx next (removes _ roots require provide revoke) s =
        remove_roots-IsSound marshal trust now ctx roots require provide revoke s
    Step-IsSound ctx next (consumes _ origin blob) s =
        IsSound-of ctx.revoke _
          (consume-SoundFor marshal trust now ctx.revoke unmarshal ctx origin blob s)
    Step-IsSound ctx next (discards _ blob) s =
        IsSound-of ctx.revoke _ (discard-SoundFor marshal trust now ctx.revoke unmarshal ctx blob s)
    Step-IsSound ctx next (collects _) s = gc_tokens-IsSound marshal trust now ctx now s
    Step-IsSound ctx next (requires _ anc sub aud caps) s =
        IsSound-of ctx.revoke _ (require_invocation-IsSound ctx anc sub aud caps s)
    Step-IsSound ctx next (hears _ anc sub top caps) s =
        IsSound-of ctx.revoke _ (require_broadcast-IsSound ctx anc sub top caps s)
    Step-IsSound ctx next (reads_require _ did) s =
        IsSound-of ctx.revoke _
          (get_require_tokens-SoundFor marshal trust now ctx.revoke ctx did now s)
    Step-IsSound ctx next (reads_provide _ did) s =
        IsSound-of ctx.revoke _
          (get_provide_tokens-SoundFor marshal trust now ctx.revoke ctx did now s)
    Step-IsSound ctx next (reads_subject _ did) s =
        IsSound-of ctx.revoke _
          (get_subject_tokens-SoundFor marshal trust now ctx.revoke ctx did now s)

  -- Every reachable context is sound: whatever calls were made and whenever, a failed `AddRoots`
  -- excepted, each token that it stores has expired, or verifies against the revocations that it
  -- knows, and each of the tokens by subject stands under its subject.
  pub Reachable-IsSound :
      (now : ℕ) (ctx : Context) → Reachable now ctx → IsSound marshal trust now ctx
  Reachable-IsSound now ctx (starts _ p) = record {
    known = refl;
    tokens_sound = λ key t u. absurd (no_Under key t u);
    require_sound = λ key t u. absurd (no_Under key t u);
    provide_sound = λ key t u. absurd (no_Under key t u);
  }
  Reachable-IsSound now ctx (calls _ before _ r s) =
      Step-IsSound now before ctx s (Reachable-IsSound now before r)
  Reachable-IsSound now ctx (waits before _ _ h r) =
      IsSound-later marshal trust before now h ctx (Reachable-IsSound before ctx r)

  -- A context that `newCapabilityContext` returns is reachable.
  pub new_capability_context-Reachable :
      (now : ℕ) (did : Did) (roots : List Did) (require provide revoke : List Token) (ctx : Context)
      → new_capability_context marshal trust now did roots require provide revoke ≡ ok ctx
      → Reachable now ctx
  unfolding new_capability_context
  new_capability_context-Reachable now did roots require provide revoke ctx h =
      let (p, e, h1) = >>=-eq-ok (trust.get_provider did) _ h in
      let (u, f, h2) =
        >>=-eq-ok (add_roots marshal trust now (new_context p) roots require provide revoke).0 _
          h1 in
      let made : (add_roots marshal trust now (new_context p) roots require provide revoke).1
          ≡ ctx =
        cc in
      subst (Reachable now) made (
        calls now (new_context p) _ (starts now p)
          (adds (new_context p) roots require provide revoke f))
