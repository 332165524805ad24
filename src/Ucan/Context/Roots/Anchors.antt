-- ===== src/Ucan/Context/Roots/Anchors.antt =====
-- lib/ucan/context.go: `consumeAnchorToken`, which keeps a side chain free of subsumed tokens.
use mathlib.Core.List.Memᴰ
use device_management_servic.Common.{
  true, false, List, [], ◌∷◌, ◌++◌, ◌≡◌, refl, ◌⊎◌, inl, inr, Memᴰ, Bool-cases, if◌then◌else◌,
}
use device_management_servic.Ucan.Token.{Token}
use device_management_servic.Ucan.Allow.{subsumes}
use device_management_servic.Ucan.Context.Roots.{keep_loop, consume_anchor}

keep_loop-result :
    (t : Token) (list result : List Token) {u : Token}
    → (keep_loop t list result).0 ≡ false
    → Memᴰ u result
    → Memᴰ u (keep_loop t list result).1
unfolding keep_loop
keep_loop-result t [] result h i = i
keep_loop-result t (o ∷ os) result h i = elim (Bool-cases (subsumes o t)) [
  | inl a ↦ cc (rw (a, if◌then◌else◌) at h)
  | inr a ↦ elim (Bool-cases (subsumes t o)) [
    | inl b ↦ rw (a, b, keep_loop) (keep_loop-result t os result (rw (a, b, keep_loop) at h) i)
    | inr b ↦
        rw (a, b, keep_loop)
          (keep_loop-result t os (result ++ o ∷ []) (rw (a, b, keep_loop) at h)
            (Memᴰ.append_left (o ∷ []) i))
  ]
]

keep_loop-kept :
    (t : Token) (list result : List Token) {u : Token}
    → (keep_loop t list result).0 ≡ false
    → Memᴰ u list
    → (subsumes t u ≡ true) ⊎ Memᴰ u (keep_loop t list result).1
unfolding keep_loop
keep_loop-kept t [] result h i = absurd (Memᴰ.not-nil i)
keep_loop-kept t (o ∷ os) result {u} h i = elim (Bool-cases (subsumes o t)) [
  | inl a ↦ cc (rw (a, if◌then◌else◌) at h)
  | inr a ↦ elim (Bool-cases (subsumes t o)) [
    | inl b ↦ elim (Memᴰ.cases_cons i) [
      | inl e ↦ inl (rw e b)
      | inr j ↦ rw (a, b, keep_loop) (keep_loop-kept t os result (rw (a, b, keep_loop) at h) j)
    ]
    | inr b ↦ elim (Memᴰ.cases_cons i) [
      | inl e ↦ inr (
          rw (a, b, keep_loop)
            (keep_loop-result t os (result ++ o ∷ []) (rw (a, b, keep_loop) at h)
              (Memᴰ.append_right result (Memᴰ.head e))))
      | inr j ↦
          rw (a, b, keep_loop)
            (keep_loop-kept t os (result ++ o ∷ []) (rw (a, b, keep_loop) at h) j)
    ]
  ]
]

keep_loop-found :
    (t : Token) (list result : List Token)
    → (keep_loop t list result).0 ≡ true
    → (v : Token) × Memᴰ v list × (subsumes v t ≡ true)
unfolding keep_loop
keep_loop-found t [] result h = cc
keep_loop-found t (o ∷ os) result h = elim (Bool-cases (subsumes o t)) [
  | inl a ↦ (o, Memᴰ.head refl, a)
  | inr a ↦
      let (v, i, b) = keep_loop-found t os _ (rw (a, if◌then◌else◌) at h) in (v, Memᴰ.tail i, b)
]

-- Adding a token to a side chain loses nothing: every stored token, and the new one, is in the
-- result or subsumed by a token of the result.
pub consume_anchor-covers :
    (list : List Token) (t u : Token)
    → Memᴰ u list ⊎ (u ≡ t)
    → (v : Token) × Memᴰ v (consume_anchor list t) × ((v ≡ u) ⊎ (subsumes v u ≡ true))
unfolding consume_anchor
consume_anchor-covers list t u w = elim (Bool-cases (keep_loop t list []).0) [
  | inl found ↦
      rw (found, consume_anchor)
        (elim w [
          | inl i ↦ (u, i, inl refl)
          | inr e ↦ let (v, i, b) = keep_loop-found t list [] found in (v, i, inr (rw e b))
        ])
  | inr kept ↦
      rw (kept, consume_anchor)
        (elim w [
          | inl i ↦ elim (keep_loop-kept t list [] kept i) [
            | inl b ↦ (t, Memᴰ.append_right (keep_loop t list []).1 (Memᴰ.head refl), inr b)
            | inr j ↦ (u, Memᴰ.append_left (t ∷ []) j, inl refl)
          ]
          | inr e ↦ (t, Memᴰ.append_right (keep_loop t list []).1 (Memᴰ.head refl), inl (cc))
        ])
]

keep_loop-sub :
    (t : Token) (list result : List Token) {u : Token}
    → Memᴰ u (keep_loop t list result).1
    → Memᴰ u result ⊎ Memᴰ u list
unfolding keep_loop
keep_loop-sub t [] result i = inl i
keep_loop-sub t (o ∷ os) result i = elim (Bool-cases (subsumes o t)) [
  | inl a ↦ inl (rw (a, keep_loop) at i)
  | inr a ↦ elim (Bool-cases (subsumes t o)) [
    | inl b ↦ elim (keep_loop-sub t os result (rw (a, b, keep_loop) at i)) [
      | inl j ↦ inl j
      | inr j ↦ inr (Memᴰ.tail j)
    ]
    | inr b ↦ elim (keep_loop-sub t os (result ++ o ∷ []) (rw (a, b, keep_loop) at i)) [
      | inl j ↦ elim (Memᴰ.append_cases result j) [
        | inl k ↦ inl k
        | inr k ↦ inr (Memᴰ.head (Memᴰ.eq_of_singleton k))
      ]
      | inr j ↦ inr (Memᴰ.tail j)
    ]
  ]
]

-- A side chain gets no token but the new one.
pub consume_anchor-sub :
    (list : List Token) (t u : Token) → Memᴰ u (consume_anchor list t) → Memᴰ u list ⊎ (u ≡ t)
unfolding consume_anchor
consume_anchor-sub list t u i = elim (Bool-cases (keep_loop t list []).0) [
  | inl found ↦ inl (rw (found, consume_anchor) at i)
  | inr kept ↦ elim (Memᴰ.append_cases (keep_loop t list []).1 (rw (kept, consume_anchor) at i)) [
    | inl j ↦ elim (keep_loop-sub t list [] j) [ inl k ↦ absurd (Memᴰ.not-nil k) | inr k ↦ inl k ]
    | inr j ↦ inr (Memᴰ.eq_of_singleton j)
  ]
]
