-- ===== src/Ucan/Token/Links.antt =====
-- lib/ucan/token.go: a token as the list of the links of its chain, itself first.
use mathlib.Core.List.Memᴰ
use device_management_servic.Common.{
  ℕ, ◌≤◌, true, false, List, [], ◌∷◌, ◌≡◌, ◌↔◌, inl, inr, refl, subst, arith, Memᴰ, Bool-cases,
}
use device_management_servic.Ucan.Did.{Did, equal, equal_iff}
use device_management_servic.Ucan.Token.{Token, byo, root, chained, Claims, expire_before, anchor}

abbrev pub chain_of : Token → List Token
chain_of byo = byo ∷ []
chain_of (root c) = root c ∷ []
chain_of (chained c p) = chained c p ∷ chain_of p

-- The far end of the chain.
abbrev pub first : Token → Token
first byo = byo
first (root c) = root c
first (chained c p) = first p

-- The token has a `DMSToken`, which satisfies the predicate.
abbrev pub Holds : (Claims → Type 0) → Token → Type 0
Holds P byo = ⊥
Holds P (root c) = P c
Holds P (chained c p) = P c

pub first_Memᴰ : (t : Token) → Memᴰ (first t) (chain_of t)
first_Memᴰ byo = Memᴰ.head refl
first_Memᴰ (root c) = Memᴰ.head refl
first_Memᴰ (chained c p) = Memᴰ.tail (first_Memᴰ p)

expire_before_sound :
    (t : Token) (deadline : ℕ)
    → expire_before t deadline ≡ false
    → (l : Token) → Memᴰ l (chain_of t)
    → Holds (λ c. deadline ≤ c.expire) l
unfolding expire_before
expire_before_sound byo deadline h l m = cc
expire_before_sound (root c) deadline h l m = rw (Memᴰ.eq_of_singleton m) (ground arith)
expire_before_sound (chained c p) deadline h l m = elim (Memᴰ.cases_cons m) [
  | inl e ↦ rw e (ground arith)
  | inr k ↦ expire_before_sound p deadline (ground arith) l k
]

expire_before_complete :
    (t : Token) (deadline : ℕ)
    → ((l : Token) → Memᴰ l (chain_of t) → Holds (λ c. deadline ≤ c.expire) l)
    → expire_before t deadline ≡ false
unfolding expire_before
expire_before_complete byo deadline h = absurd (h byo (Memᴰ.head refl))
expire_before_complete (root c) deadline h =
    let k : deadline ≤ c.expire = h (root c) (Memᴰ.head refl) in ground arith
expire_before_complete (chained c p) deadline h =
    let k : deadline ≤ c.expire = h (chained c p) (Memᴰ.head refl) in
    ground (arith, expire_before_complete p deadline (λ l m. h l (Memᴰ.tail m)))

-- `ExpireBefore` is false exactly when every link of the chain is a `DMSToken` that lasts until
-- the deadline.
pub expire_before_iff :
    (t : Token) (deadline : ℕ)
    → (expire_before t deadline ≡ false)
      ↔ ((l : Token) → Memᴰ l (chain_of t) → Holds (λ c. deadline ≤ c.expire) l)
expire_before_iff t deadline = (expire_before_sound t deadline, expire_before_complete t deadline)

anchor_sound :
    (t : Token) (did : Did)
    → anchor t did ≡ true
    → (l : Token) × Memᴰ l (chain_of t) × Holds (λ c. c.issuer ≡ did) l
unfolding anchor
anchor_sound byo did h = cc
anchor_sound (root c) did h = (root c, Memᴰ.head refl, (equal_iff c.issuer did).0 h)
anchor_sound (chained c p) did h = elim (Bool-cases (equal c.issuer did)) [
  | inl same ↦ (chained c p, Memᴰ.head refl, (equal_iff c.issuer did).0 same)
  | inr other ↦ let (l, m, k) = anchor_sound p did (ground arith) in (l, Memᴰ.tail m, k)
]

anchor_complete :
    (t l : Token) (did : Did)
    → Memᴰ l (chain_of t)
    → Holds (λ c. c.issuer ≡ did) l
    → anchor t did ≡ true
unfolding anchor
anchor_complete byo l did m h = absurd (subst (Holds _) (Memᴰ.eq_of_singleton m) h)
anchor_complete (root c) l did m h =
    (equal_iff c.issuer did).1 (subst (Holds (λ d. d.issuer ≡ did)) (Memᴰ.eq_of_singleton m) h)
anchor_complete (chained c p) l did m h = elim (Memᴰ.cases_cons m) [
  | inl e ↦
      let same = (equal_iff c.issuer did).1 (subst (Holds (λ d. d.issuer ≡ did)) e h) in
      ground arith
  | inr k ↦ ground (arith, anchor_complete p l did k h)
]

-- `Anchor` holds exactly when the DID issued a link of the chain.
pub anchor_iff :
    (t : Token) (did : Did)
    → (anchor t did ≡ true) ↔ ((l : Token) × Memᴰ l (chain_of t) × Holds (λ c. c.issuer ≡ did) l)
anchor_iff t did = (anchor_sound t did, λ w. anchor_complete t w.0 did w.1 w.2)
