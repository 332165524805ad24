-- ===== src/Ucan/Context/Invariant/Consumes.antt =====
-- lib/ucan/context.go: taking in and dropping tokens keeps the context sound.
use Prim.Native.String.{len}
use mathlib.Core.List.Memᴰ
use device_management_servic.Common.{
  ℕ, String, Bool, true, false, List, [], ◌∷◌, Result, ok, ◌≡◌, refl, arith, inl, inr, any, ◌&&◌,
  Memᴰ-delete_func, delete_func, Bool-cases, Result-cases, if◌then◌else◌, is_nil, is_ok, ltb,
  str_eq,
}
use device_management_servic.Common.Map.{Map, lookup}
use device_management_servic.Ucan.Did.{Did, TrustContext, equal}
use device_management_servic.Ucan.Token.{Token, anchor, subject, issuer, nonce, RevocationSet}
use device_management_servic.Ucan.Verify.{verify}
use device_management_servic.Ucan.Context.State.{Context, or_nil, context_did}
use device_management_servic.Ucan.Context.Invariant.Reads.{side_chains-SoundFor}
use device_management_servic.Ucan.Context.Consume.{
  is_wanted, consume_token, consume_tokens, consume_subject_token, consume, max_capability_size,
}
use device_management_servic.Ucan.Context.Discard.{discard_token, discard_tokens, discard}
use device_management_servic.Ucan.Context.Every.{Every, Every-insert, Every-erase, Every-or_nil}
use device_management_servic.Ucan.Context.Invariant.{Held, SoundFor}

-- What a round of `discardTokens` leaves under the subject.
abbrev left_in : Map (List Token) → Token → List Token
left_in m t =
    delete_func (or_nil (lookup (subject t).uri m))
      (λ ot. equal (issuer t) (issuer ot) && str_eq (nonce t) (nonce ot))

module _ (marshal : Token → Result String) (trust : TrustContext) (now : ℕ)
    (r : RevocationSet) where
  abbrev S : Context → Type 0
  S ctx = SoundFor marshal trust now r ctx

  consume_subject_token-SoundFor :
      (ctx : Context) (t : Token)
      → verify marshal trust t now r ≡ ok tt
      → S ctx
      → S (consume_subject_token ctx t)
  unfolding consume_subject_token
  consume_subject_token-SoundFor ctx t v s = record {
    known = s.known;
    tokens_sound =
        Every-insert (Held marshal trust now r) (subject t).uri _ ctx.tokens
          (λ u i. elim (Memᴰ.append_cases (or_nil (lookup (subject t).uri ctx.tokens)) i) [
            | inl k ↦ Every-or_nil (Held marshal trust now r) _ ctx.tokens s.tokens_sound u k
            | inr k ↦ let e : u ≡ t = Memᴰ.eq_of_singleton k in rw e (refl, inr v)
          ])
          s.tokens_sound;
    require_sound = s.require_sound;
    provide_sound = s.provide_sound;
  }

  is_wanted-SoundFor :
      (ctx : Context) (origin : Did) (roots anchors : List Did) (t : Token)
      → S ctx
      → S (is_wanted ctx now origin roots anchors t).1
  unfolding is_wanted
  is_wanted-SoundFor ctx origin roots anchors t s = elim (Bool-cases (anchor t (context_did ctx))) [
    | inl a ↦ rw (a, is_wanted) s
    | inr a ↦ elim (Bool-cases (anchor t origin)) [
      | inl b ↦ rw (a, b, is_wanted) s
      | inr b ↦ elim (Bool-cases (any roots (anchor t))) [
        | inl c ↦ rw (a, b, c, is_wanted) s
        | inr c ↦
            rw (a, b, c, is_wanted)
              (side_chains-SoundFor marshal trust now r ctx now anchors t true s)
      ]
    ]
  ]

  store_if :
      (b : Bool) (ctx : Context) (t : Token)
      → (b ≡ true → verify marshal trust t now r ≡ ok tt)
      → S ctx
      → S (if b then consume_subject_token ctx t else ctx)
  store_if true ctx t v s = consume_subject_token-SoundFor ctx t (v refl) s
  store_if false ctx t v s = s

  choose : (b : Bool) (x y : Context) → S x → S y → S (if b then x else y)
  choose true x y p q = p
  choose false x y p q = q

  is_ok-verify :
      (t : Token) (q : RevocationSet)
      → q ≡ r
      → is_ok (verify marshal trust t now q) ≡ true
      → verify marshal trust t now r ≡ ok tt
  is_ok-verify t q e h = ground arith

  consume_token-SoundFor :
      (ctx : Context) (origin : Did) (roots anchors : List Did) (t : Token)
      → S ctx
      → S (consume_token marshal trust now ctx origin roots anchors t)
  unfolding consume_token
  consume_token-SoundFor ctx origin roots anchors t s =
      let w = is_wanted-SoundFor ctx origin roots anchors t s in
      choose (is_wanted ctx now origin roots anchors t).0 _ _
        (store_if _ (is_wanted ctx now origin roots anchors t).1 t (is_ok-verify t _ w.known) w) w

  consume_tokens-SoundFor :
      (ctx : Context) (origin : Did) (roots anchors : List Did) (ts : List Token)
      → S ctx
      → S (consume_tokens marshal trust now ctx origin roots anchors ts)
  unfolding consume_tokens
  consume_tokens-SoundFor ctx origin roots anchors [] s = s
  consume_tokens-SoundFor ctx origin roots anchors (t ∷ ts) s =
      consume_tokens-SoundFor (consume_token marshal trust now ctx origin roots anchors t) origin
        roots anchors ts (consume_token-SoundFor ctx origin roots anchors t s)

  pub consume-SoundFor :
      (unmarshal : String → Result (List Token)) (ctx : Context) (origin : Did) (blob : String)
      → S ctx
      → S (consume marshal trust now unmarshal ctx origin blob).1
  unfolding consume
  consume-SoundFor unmarshal ctx origin blob s =
      elim (Bool-cases (ltb max_capability_size (len blob))) [
        | inl big ↦ rw (big, consume) s
        | inr fits ↦ elim (Result-cases (unmarshal blob)) [
          | inr (e, p) ↦ rw (fits, p, consume) s
          | inl (ts, p) ↦ rw (fits, p, consume) (consume_tokens-SoundFor ctx origin _ _ ts s)
        ]
      ]

  discard_token-Every :
      (m : Map (List Token)) (t : Token)
      → Every (Held marshal trust now r) m
      → Every (Held marshal trust now r) (discard_token m t)
  unfolding discard_token
  discard_token-Every m t e = elim (Bool-cases (is_nil (left_in m t))) [
    | inl n ↦ rw (n, discard_token) (Every-erase (Held marshal trust now r) (subject t).uri m e)
    | inr n ↦
        rw (n, discard_token)
          (Every-insert (Held marshal trust now r) (subject t).uri (left_in m t) m
            (λ u i. Every-or_nil (Held marshal trust now r) _ m e u (Memᴰ-delete_func _ _ i).0) e)
  ]

  discard_tokens-Every :
      (m : Map (List Token)) (ts : List Token)
      → Every (Held marshal trust now r) m
      → Every (Held marshal trust now r) (discard_tokens m ts)
  unfolding discard_tokens
  discard_tokens-Every m [] e = e
  discard_tokens-Every m (t ∷ ts) e =
      discard_tokens-Every (discard_token m t) ts (discard_token-Every m t e)

  pub discard-SoundFor :
      (unmarshal : String → Result (List Token)) (ctx : Context) (blob : String)
      → S ctx
      → S (discard unmarshal ctx blob)
  unfolding discard
  discard-SoundFor unmarshal ctx blob s = elim (Result-cases (unmarshal blob)) [
    | inr (e, p) ↦ rw (p, discard) s
    | inl (ts, p) ↦
        rw (p, discard)
          (record {
            known = s.known;
            tokens_sound = discard_tokens-Every ctx.tokens ts s.tokens_sound;
            require_sound = s.require_sound;
            provide_sound = s.provide_sound;
          })
  ]
