-- ===== src/Ucan/Context/Provide/Issued.antt =====
-- lib/ucan/context.go: where the tokens that a context issues come from.
use mathlib.Core.List.Memᴰ
use device_management_servic.Common.{
  ℕ, ◌+◌, String, Bool, true, false, not, ◌&&◌, List, [], ◌∷◌, Result, Result-cases, ok, ◌≡◌, refl,
  arith, inl, inr, Memᴰ, delete_func-full, Bool-cases, and-true, is_nil, ltb, length,
}
use device_management_servic.Ucan.Capability.{Capability}
use device_management_servic.Ucan.Did.{Did}
use device_management_servic.Ucan.Token.{Token, anchor, expire_before}
use device_management_servic.Ucan.Context.State.{Context, get_provide_tokens}
use device_management_servic.Ucan.Context.State.Listed.{get_tokens-Under}
use device_management_servic.Ucan.Context.Every.{Every, Every-get_tokens}
use device_management_servic.Ucan.Context.Provide.{providing, issue_from, issue_anchors}

-- A token made below another one, which is anchored and may pass on all of the capabilities.
pub record Made (allows : Token → Capability → Bool)
    (make : Token → Result String → List Capability → Result Token) (provide : List Capability)
    (Q : Token → Type 0) (t : Token) : Type 0 where
  pub above : Token
  pub source : Q above
  pub drawn : Result String
  pub anchors : Did
  pub made : make above drawn provide ≡ ok t
  pub anchored : anchor above anchors ≡ true
  pub may : (c : Capability) → Memᴰ c provide → allows above c ≡ true

-- The provide tokens that have not expired satisfy `Q`.
abbrev pub Supplies : (Token → Type 0) → ℕ → Context → Type 0
Supplies Q now ctx = Every (λ key p. expire_before p now ≡ false → Q p) ctx.provide

providing-full :
    (allows : Token → Capability → Bool) (anc : Did) (p : Token) (provide : List Capability)
    → ltb (length (providing allows anc p provide)) (length provide) ≡ false
    → (providing allows anc p provide ≡ provide)
      × ((c : Capability) → Memᴰ c provide → anchor p anc && allows p c ≡ true)
unfolding providing
providing-full allows anc p provide h =
    let (e, f) = delete_func-full provide (λ c. not (anchor p anc && allows p c)) (ground arith) in
    (e, λ c m. ground (arith, f c m))

module _ (rand : ℕ → Result String) (allows : Token → Capability → Bool)
    (make : Token → Result String → List Capability → Result Token) (c : Capability)
    (cs : List Capability) (Q : Token → Type 0) where
  abbrev M : Token → Type 0
  M t = Made allows make (c ∷ cs) Q t

  abbrev caps : Did → Token → List Capability
  caps anc p = providing allows anc p (c ∷ cs)

  pub issue_from-Made :
      (anc : Did) (n : ℕ) (ts : List Token)
      → ((p : Token) → Memᴰ p ts → Q p)
      → (t : Token) → Memᴰ t (issue_from rand allows make (c ∷ cs) anc n ts).0
      → M t
  unfolding issue_from
  issue_from-Made anc n [] q t i = absurd (Memᴰ.not-nil i)
  issue_from-Made anc n (p ∷ ts) q t i = elim (Bool-cases (is_nil (caps anc p))) [
    | inl none ↦ issue_from-Made anc n ts (λ u k. q u (Memᴰ.tail k)) t (rw (none, issue_from) at i)
    | inr some ↦ elim (Bool-cases (ltb (length (caps anc p)) (length (c ∷ cs)))) [
      | inl part ↦
          issue_from-Made anc n ts (λ u k. q u (Memᴰ.tail k)) t (rw (some, part, issue_from) at i)
      | inr full ↦
          let (same, all) = providing-full allows anc p (c ∷ cs) full in
          elim (Result-cases (make p (rand n) (caps anc p))) [
            | inr (e, f) ↦
                issue_from-Made anc (n + 1) ts (λ u k. q u (Memᴰ.tail k)) t
                  (rw (some, full, f, issue_from) at i)
            | inl (u, f) ↦ elim (Memᴰ.cases_cons (rw (some, full, f, issue_from) at i)) [
              | inl e ↦ record {
                above = p;
                source = q p (Memᴰ.head refl);
                drawn = rand n;
                anchors = anc;
                made = cc;
                anchored = (and-true _ _ (all c (Memᴰ.head refl))).0;
                may = λ x m. (and-true _ _ (all x m)).1;
              }
              | inr k ↦ issue_from-Made anc (n + 1) ts (λ v j. q v (Memᴰ.tail j)) t k
            ]
          ]
    ]
  ]

  pub issue_anchors-Made :
      (now : ℕ) (ctx : Context) (n : ℕ) (anchors : List Did)
      → Supplies Q now ctx
      → (t : Token) → Memᴰ t (issue_anchors rand allows make (c ∷ cs) now ctx n anchors).0
      → M t
  unfolding issue_anchors get_provide_tokens
  issue_anchors-Made now ctx n [] q t i = absurd (Memᴰ.not-nil i)
  issue_anchors-Made now ctx n (a ∷ anchors) q t i =
      elim (Memᴰ.append_cases
        (issue_from rand allows make (c ∷ cs) a n (get_provide_tokens ctx a now).0).0 i) [
          | inl k ↦
              issue_from-Made a n _
                (λ p j. let (u, e) = get_tokens-Under ctx.provide a now p j in q a.uri p u e) t k
          | inr k ↦
              issue_anchors-Made now (get_provide_tokens ctx a now).1 _ anchors
                (Every-get_tokens (λ key p. expire_before p now ≡ false → Q p) ctx.provide a now q)
                t k
        ]
