-- ===== src/Ucan/Context/Require/Search.antt =====
-- lib/ucan/context.go, `Require`: the search for a token that carries a required capability.
use mathlib.Core.List.Memᴰ
use device_management_servic.Common.{
  ℕ, String, Bool, true, false, List, [], ◌∷◌, ◌≡◌, ◌↔◌, refl, arith, ◌⊎◌, inl, inr, Memᴰ,
  Bool-cases, any, any-Memᴰ, Memᴰ-any, and-true, if◌then◌else◌, ◌&&◌,
}
use device_management_servic.Common.Map.{Map}
use device_management_servic.Ucan.Capability.{Capability}
use device_management_servic.Ucan.Did.{Did}
use device_management_servic.Ucan.Token.{Token, anchor}
use device_management_servic.Ucan.Context.State.{Context}
use device_management_servic.Ucan.Context.State.Listed.{Under}
use device_management_servic.Ucan.Context.Require.{accepts, accept_any, find_token}
use device_management_servic.Ucan.Context.Require.Side.{
  Reads, Reads-refl, Reads-trans, SideAccepts, side_chains-Reads, side_chains_sound,
  side_chains_complete,
}

-- The chain of the token holds the anchor or a root, or a live side chain accepts it.
abbrev pub Anchored : Context → ℕ → Did → List Did → Token → Type 0
Anchored ctx now anc roots t =
    (anchor t anc ≡ true)
    ⊎ (((r : Did) × Memᴰ r roots × (anchor t r ≡ true)) ⊎ SideAccepts ctx now t)

-- The anchors name every list of the map.
abbrev pub NamesAll : List Did → Map (List Token) → Type 0
NamesAll anchors m =
    (key : String) (t : Token) → Under m key t → Memᴰ (record { uri = key }) anchors

Anchored-Reads :
    {now : ℕ} (ctx other : Context) (anc : Did) (roots : List Did) (t : Token)
    → Reads now ctx.require other.require
    → Anchored other now anc roots t
    → Anchored ctx now anc roots t
Anchored-Reads ctx other anc roots t r (inl h) = inl h
Anchored-Reads ctx other anc roots t r (inr (inl h)) = inr (inl h)
Anchored-Reads ctx other anc roots t r (inr (inr (rt, (key, u), e, h))) =
    inr (inr (rt, (key, r.sub key rt u), e, h))

Reads-Anchored :
    {now : ℕ} (ctx other : Context) (anc : Did) (roots : List Did) (t : Token)
    → Reads now ctx.require other.require
    → Anchored ctx now anc roots t
    → Anchored other now anc roots t
Reads-Anchored ctx other anc roots t r (inl h) = inl h
Reads-Anchored ctx other anc roots t r (inr (inl h)) = inr (inl h)
Reads-Anchored ctx other anc roots t r (inr (inr (rt, (key, u), e, h))) =
    inr (inr (rt, (key, r.keeps key rt u e), e, h))

NamesAll-Reads :
    {now : ℕ} {m n : Map (List Token)} (anchors : List Did)
    → Reads now m n
    → NamesAll anchors m
    → NamesAll anchors n
NamesAll-Reads anchors r h key t u = h key t (r.sub key t u)

-- `if found { return } …`, over a found flag with a state.
or_else_Reads :
    {now : ℕ} (ctx : Context) (x y : Bool × Context)
    → Reads now ctx.require x.1.require
    → Reads now x.1.require y.1.require
    → Reads now ctx.require (if x.0 then x else y).1.require
or_else_Reads ctx (true, a) y r s = r
or_else_Reads ctx (false, a) y r s = Reads-trans r s

or_else_sound :
    (x y : Bool × Context) → (if x.0 then x else y).0 ≡ true → (x.0 ≡ true) ⊎ (y.0 ≡ true)
or_else_sound (true, a) y h = inl refl
or_else_sound (false, a) y h = inr h

or_else_left : (x y : Bool × Context) → x.0 ≡ true → (if x.0 then x else y).0 ≡ true
or_else_left (true, a) y h = refl
or_else_left (false, a) y h = cc

or_else_right : (x y : Bool × Context) → y.0 ≡ true → (if x.0 then x else y).0 ≡ true
or_else_right (true, a) y h = refl
or_else_right (false, a) y h = h

module _ (now : ℕ) (anc : Did) (roots anchors : List Did) where
  abbrev by_root : Token → Bool → Bool
  by_root t allowed = any roots (λ r. anchor t r && allowed)

  pub accepts-Reads :
      (ctx : Context) (t : Token) (allowed : Bool)
      → Reads now ctx.require (accepts ctx now anc roots anchors t allowed).1.require
  unfolding accepts
  accepts-Reads ctx t allowed = elim (Bool-cases (anchor t anc && allowed)) [
    | inl own ↦ rw (own, accepts) (Reads-refl now ctx.require)
    | inr not_own ↦ elim (Bool-cases (by_root t allowed)) [
      | inl top ↦ rw (not_own, top, accepts) (Reads-refl now ctx.require)
      | inr not_top ↦ rw (not_own, not_top, accepts) (side_chains-Reads ctx now anchors t allowed)
    ]
  ]

  accepts_sound :
      (ctx : Context) (t : Token) (allowed : Bool)
      → (accepts ctx now anc roots anchors t allowed).0 ≡ true
      → (allowed ≡ true) × Anchored ctx now anc roots t
  unfolding accepts
  accepts_sound ctx t allowed h = elim (Bool-cases (anchor t anc && allowed)) [
    | inl own ↦ let (x, y) = and-true _ _ own in (y, inl x)
    | inr not_own ↦ elim (Bool-cases (by_root t allowed)) [
      | inl top ↦
          let (r, m, k) = any-Memᴰ roots (λ r. anchor t r && allowed) top in
          let (x, y) = and-true _ _ k in (y, inr (inl (r, m, x)))
      | inr not_top ↦
          let (b, s) =
            side_chains_sound ctx now anchors t allowed (rw (not_own, not_top, accepts) at h) in
          (b, inr (inr s))
    ]
  ]

  accepts_complete :
      (ctx : Context) (t : Token)
      → NamesAll anchors ctx.require
      → Anchored ctx now anc roots t
      → (accepts ctx now anc roots anchors t true).0 ≡ true
  unfolding accepts
  accepts_complete ctx t n (inl h) = ground arith
  accepts_complete ctx t n (inr (inl (r, m, h))) =
      ground (arith, Memᴰ-any {a = r} {xs = roots} (λ (s : Did). anchor t s && true) m)
  accepts_complete ctx t n (inr (inr (rt, (key, u), e, h))) =
      ground
        (arith, side_chains_complete ctx now anchors t rt (record { uri = key }) (n key rt u) u e h)

  module _ (allows : Token → Capability → Bool) where
    abbrev Accepts : Context → Token → List Capability → Type 0
    Accepts ctx t caps =
        (c : Capability) × Memᴰ c caps × (allows t c ≡ true) × Anchored ctx now anc roots t

    -- The context after the check of one capability, and of one token.
    abbrev after_one : Context → Token → Capability → Context
    after_one ctx t c = (accepts ctx now anc roots anchors t (allows t c)).1

    abbrev after_token : Context → Token → List Capability → Context
    after_token ctx t caps = (accept_any allows now anc roots anchors ctx t caps).1

    accept_any-Reads :
        (ctx : Context) (t : Token) (caps : List Capability)
        → Reads now ctx.require (accept_any allows now anc roots anchors ctx t caps).1.require
    unfolding accept_any
    accept_any-Reads ctx t [] = Reads-refl now ctx.require
    accept_any-Reads ctx t (c ∷ cs) =
        or_else_Reads ctx (accepts ctx now anc roots anchors t (allows t c)) _
          (accepts-Reads ctx t (allows t c)) (accept_any-Reads (after_one ctx t c) t cs)

    accept_any_sound :
        (ctx : Context) (t : Token) (caps : List Capability)
        → (accept_any allows now anc roots anchors ctx t caps).0 ≡ true
        → Accepts ctx t caps
    unfolding accept_any
    accept_any_sound ctx t [] h = absurd (ground arith)
    accept_any_sound ctx t (c ∷ cs) h =
        elim (or_else_sound (accepts ctx now anc roots anchors t (allows t c)) _ h) [
          | inl here ↦
              let (b, w) = accepts_sound ctx t (allows t c) here in (c, Memᴰ.head refl, b, w)
          | inr there ↦
              let (d, m, b, w) = accept_any_sound (after_one ctx t c) t cs there in
              (
                d,
                Memᴰ.tail m,
                b,
                Anchored-Reads ctx (after_one ctx t c) anc roots t
                    (accepts-Reads ctx t (allows t c)) w,
              )
        ]

    accept_any_complete :
        (ctx : Context) (t : Token) (caps : List Capability)
        → NamesAll anchors ctx.require
        → Accepts ctx t caps
        → (accept_any allows now anc roots anchors ctx t caps).0 ≡ true
    unfolding accept_any
    accept_any_complete ctx t [] n (c, m, b, w) = absurd (Memᴰ.not-nil m)
    accept_any_complete ctx t (d ∷ cs) n (c, m, b, w) = elim (Memᴰ.cases_cons m) [
      | inl e ↦
          or_else_left (accepts ctx now anc roots anchors t (allows t d)) _
            (rw (← e, b) (accepts_complete ctx t n w))
      | inr k ↦ or_else_right (accepts ctx now anc roots anchors t (allows t d)) _ (
          accept_any_complete (after_one ctx t d) t cs
            (NamesAll-Reads anchors (accepts-Reads ctx t (allows t d)) n)
            (
              c,
              k,
              b,
              Reads-Anchored ctx (after_one ctx t d) anc roots t (accepts-Reads ctx t (allows t d))
                  w,
            ))
    ]

    -- Some token of the list is accepted for one of the capabilities.
    abbrev pub Finds : Context → List Token → List Capability → Type 0
    Finds ctx ts caps = (t : Token) × Memᴰ t ts × Accepts ctx t caps

    find_token_sound :
        (ctx : Context) (ts : List Token) (caps : List Capability)
        → (find_token allows now anc roots anchors ctx ts caps).0 ≡ true
        → Finds ctx ts caps
    unfolding find_token
    find_token_sound ctx [] caps h = absurd (ground arith)
    find_token_sound ctx (t ∷ ts) caps h =
        elim (or_else_sound (accept_any allows now anc roots anchors ctx t caps) _ h) [
          | inl here ↦ (t, Memᴰ.head refl, accept_any_sound ctx t caps here)
          | inr there ↦
              let (u, m, (d, k, b, w)) = find_token_sound (after_token ctx t caps) ts caps there in
              (
                u,
                Memᴰ.tail m,
                (
                  d,
                  k,
                  b,
                  Anchored-Reads ctx (after_token ctx t caps) anc roots u
                      (accept_any-Reads ctx t caps) w,
                ),
              )
        ]

    find_token_complete :
        (ctx : Context) (ts : List Token) (caps : List Capability)
        → NamesAll anchors ctx.require
        → Finds ctx ts caps
        → (find_token allows now anc roots anchors ctx ts caps).0 ≡ true
    unfolding find_token
    find_token_complete ctx [] caps n (t, m, w) = absurd (Memᴰ.not-nil m)
    find_token_complete ctx (u ∷ ts) caps n (t, m, (d, k, b, w)) = elim (Memᴰ.cases_cons m) [
      | inl e ↦
          or_else_left (accept_any allows now anc roots anchors ctx u caps) _
            (rw (← e) (accept_any_complete ctx t caps n (d, k, b, w)))
      | inr i ↦ or_else_right (accept_any allows now anc roots anchors ctx u caps) _ (
          find_token_complete (after_token ctx u caps) ts caps
            (NamesAll-Reads anchors (accept_any-Reads ctx u caps) n)
            (
              t,
              i,
              (
                d,
                k,
                b,
                Reads-Anchored ctx (after_token ctx u caps) anc roots t
                    (accept_any-Reads ctx u caps) w,
              ),
            ))
    ]

    pub find_token_iff :
        (ctx : Context) (ts : List Token) (caps : List Capability)
        → NamesAll anchors ctx.require
        → ((find_token allows now anc roots anchors ctx ts caps).0 ≡ true) ↔ Finds ctx ts caps
    find_token_iff ctx ts caps n = (find_token_sound ctx ts caps, find_token_complete ctx ts caps n)
