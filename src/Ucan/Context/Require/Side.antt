-- ===== src/Ucan/Context/Require/Side.antt =====
-- lib/ucan/context.go, `Require`: the loop over the side chains of the context.
use mathlib.Core.List.Memᴰ
use device_management_servic.Common.{
  ℕ, String, Bool, true, false, List, [], ◌∷◌, ◌≡◌, arith, inl, inr, Memᴰ, Bool-cases, any,
  any-Memᴰ, Memᴰ-any, and-true, ◌&&◌,
}
use device_management_servic.Common.Map.{Map}
use device_management_servic.Ucan.Did.{Did}
use device_management_servic.Ucan.Token.{Token, expire_before}
use device_management_servic.Ucan.Allow.{allow_action}
use device_management_servic.Ucan.Context.State.{Context, get_tokens, get_require_tokens}
use device_management_servic.Ucan.Context.State.Listed.{
  Under, Listed, get_tokens-Under, Under-get_tokens, get_tokens-sub, get_tokens-keeps,
}
use device_management_servic.Ucan.Context.Require.{side_chains}

-- Reading lists drops expired tokens, and nothing else changes.
pub record Reads (now : ℕ) (m n : Map (List Token)) : Type 0 where
  pub sub : (key : String) (t : Token) → Under n key t → Under m key t
  pub keeps :
      (key : String) (t : Token) → Under m key t → expire_before t now ≡ false → Under n key t

pub Reads-refl : (now : ℕ) (m : Map (List Token)) → Reads now m m
Reads-refl now m = record { sub = λ k t u. u; keeps = λ k t u h. u }

pub Reads-trans :
    {now : ℕ} {l m n : Map (List Token)} → Reads now l m → Reads now m n → Reads now l n
Reads-trans r s = record {
  sub = λ k t u. r.sub k t (s.sub k t u);
  keeps = λ k t u h. s.keeps k t (r.keeps k t u h) h;
}

pub get_tokens-Reads :
    (m : Map (List Token)) (did : Did) (now : ℕ) → Reads now m (get_tokens m did now).1
get_tokens-Reads m did now = record {
  sub = get_tokens-sub m did now;
  keeps = get_tokens-keeps m did now;
}

-- A live side chain accepts the token.
abbrev pub SideAccepts : Context → ℕ → Token → Type 0
SideAccepts ctx now t =
    (rt : Token) × Listed ctx.require rt
    × (expire_before rt now ≡ false)
    × (allow_action rt t ≡ true)

-- What one round of the loop reads.
abbrev after_read : Context → ℕ → Did → Context
after_read ctx now a = (get_require_tokens ctx a now).1

round_sound :
    (ctx : Context) (now : ℕ) (a : Did) (t : Token) (allowed : Bool)
    → any (get_require_tokens ctx a now).0 (λ rt. allow_action rt t && allowed) ≡ true
    → (allowed ≡ true) × SideAccepts ctx now t
unfolding get_require_tokens
round_sound ctx now a t allowed h =
    let (rt, m, k) = any-Memᴰ _ (λ rt. allow_action rt t && allowed) h in
    let (u, e) = get_tokens-Under ctx.require a now rt m in
    let (x, y) = and-true _ _ k in (y, (rt, (a.uri, u), e, x))

round_complete :
    (ctx : Context) (now : ℕ) (a : Did) (t rt : Token)
    → Under ctx.require a.uri rt
    → expire_before rt now ≡ false
    → allow_action rt t ≡ true
    → any (get_require_tokens ctx a now).0 (λ rt. allow_action rt t && true) ≡ true
unfolding get_require_tokens
round_complete ctx now a t rt u e h =
    Memᴰ-any {a = rt} (λ rt. allow_action rt t && true) (Under-get_tokens ctx.require a now rt u e)
      (rw h)

pub side_chains-Reads :
    (ctx : Context) (now : ℕ) (anchors : List Did) (t : Token) (allowed : Bool)
    → Reads now ctx.require (side_chains ctx now anchors t allowed).1.require
unfolding side_chains get_require_tokens
side_chains-Reads ctx now [] t allowed = Reads-refl now ctx.require
side_chains-Reads ctx now (a ∷ anchors) t allowed =
    elim (Bool-cases (any (get_require_tokens ctx a now).0 (λ rt. allow_action rt t && allowed))) [
      | inl hit ↦ rw (hit, side_chains) (get_tokens-Reads ctx.require a now)
      | inr miss ↦
          rw (miss, side_chains)
            (Reads-trans (get_tokens-Reads ctx.require a now)
              (side_chains-Reads (after_read ctx now a) now anchors t allowed))
    ]

SideAccepts-read :
    (ctx : Context) (now : ℕ) (a : Did) (t : Token)
    → SideAccepts (after_read ctx now a) now t
    → SideAccepts ctx now t
unfolding get_require_tokens
SideAccepts-read ctx now a t (rt, (key, u), e, h) =
    (rt, (key, get_tokens-sub ctx.require a now key rt u), e, h)

-- The loop succeeds only if the other condition holds and a live side chain accepts the token.
pub side_chains_sound :
    (ctx : Context) (now : ℕ) (anchors : List Did) (t : Token) (allowed : Bool)
    → (side_chains ctx now anchors t allowed).0 ≡ true
    → (allowed ≡ true) × SideAccepts ctx now t
unfolding side_chains
side_chains_sound ctx now [] t allowed h = absurd (ground arith)
side_chains_sound ctx now (a ∷ anchors) t allowed h =
    elim (Bool-cases (any (get_require_tokens ctx a now).0 (λ rt. allow_action rt t && allowed))) [
      | inl hit ↦ round_sound ctx now a t allowed hit
      | inr miss ↦
          let (b, w) =
            side_chains_sound (after_read ctx now a) now anchors t allowed
              (rw (miss, side_chains) at h) in
          (b, SideAccepts-read ctx now a t w)
    ]

pub side_chains_complete :
    (ctx : Context) (now : ℕ) (anchors : List Did) (t rt : Token) (a : Did)
    → Memᴰ a anchors
    → Under ctx.require a.uri rt
    → expire_before rt now ≡ false
    → allow_action rt t ≡ true
    → (side_chains ctx now anchors t true).0 ≡ true
unfolding side_chains
side_chains_complete ctx now [] t rt a m u e h = absurd (Memᴰ.not-nil m)
side_chains_complete ctx now (b ∷ anchors) t rt a m u e h =
    elim (Bool-cases (any (get_require_tokens ctx b now).0 (λ rt. allow_action rt t && true))) [
      | inl hit ↦ rw (hit, side_chains)
      | inr miss ↦
          rw (miss, side_chains)
            (elim (Memᴰ.cases_cons m) [
              | inl same ↦ cc (miss, round_complete ctx now b t rt (rw (← same) u) e h)
              | inr k ↦
                  side_chains_complete (after_read ctx now b) now anchors t rt a k
                    (unfold get_require_tokens in get_tokens-keeps ctx.require b now a.uri rt u e) e
                    h
            ])
    ]
