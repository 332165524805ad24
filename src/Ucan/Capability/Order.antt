-- ===== src/Ucan/Capability/Order.antt =====
-- lib/ucan/cap.go: `Implies` as a relation between paths.
use Prim.Native.String
use Prim.Native.String.{[], ◌∷◌}
use text.Mathlib.TextLemmas.{
  append_assoc, cons-append, cons-ne-nil, tail-eq_of_cons-eq, append-eq-nil_iff,
}
use device_management_servic.Common.{
  String, ◌≡◌, ◌≢◌, refl, sym, ap, subst, ◌∙◌, ◌⊎◌, inl, inr, true, arith, str_eq, str_eq_iff,
  has_prefix_iff, Bool-cases,
}
use device_management_servic.Ucan.Capability.{Capability, root_capability, implies}

infixl 65 ◌++◌
abbrev ◌++◌ : String → String → String
◌++◌ = String.◌++◌

-- The second is the first, or the first is the root, or the second lies below the first.
abbrev pub Covers : Capability → Capability → Type 0
Covers c other =
    (c ≡ other) ⊎ ((c ≡ root_capability) ⊎ ((rest : String) × (c ++ "/" ++ rest ≡ other)))

implies-Covers : (c other : Capability) → implies c other ≡ true → Covers c other
unfolding implies
implies-Covers c other h = elim (Bool-cases (str_eq c other)) [
  | inl same ↦ inl ((str_eq_iff c other).0 same)
  | inr other_path ↦ elim (Bool-cases (str_eq c root_capability)) [
    | inl top ↦ inr (inl ((str_eq_iff c root_capability).0 top))
    | inr not_root ↦ inr (inr ((has_prefix_iff other (c ++ "/")).0 (ground arith)))
  ]
]

Covers-implies : (c other : Capability) → Covers c other → implies c other ≡ true
unfolding implies
Covers-implies c other (inl e) = ground (arith, (str_eq_iff c other).1 e)
Covers-implies c other (inr (inl e)) = ground (arith, (str_eq_iff c root_capability).1 e)
Covers-implies c other (inr (inr p)) = ground (arith, (has_prefix_iff other (c ++ "/")).1 p)

pub implies_refl : (c : Capability) → implies c c ≡ true
implies_refl c = Covers-implies c c (inl refl)

pub root-implies : (c : Capability) → implies root_capability c ≡ true
root-implies c = Covers-implies root_capability c (inr (inl refl))

-- A nonempty path is no proper prefix of "/".
ne-root_of_prefix : (c rest : String) → c ≢ "" → c ++ "/" ++ rest ≢ "/"
ne-root_of_prefix [] rest h e = h refl
ne-root_of_prefix (x ∷ s) rest h e =
    cons-ne-nil "/" []
      ((append-eq-nil_iff {p = s} {q = "/"}).0
        ((append-eq-nil_iff {p = s ++ "/"} {q = rest}).0 rest_nil).0).1
  where
    rest_nil : s ++ "/" ++ rest ≡ ""
    rest_nil =
        tail-eq_of_cons-eq (
          sym (cons-append x (s ++ "/") rest) ∙ ap (λ v. v ++ rest) (sym (cons-append x s "/")) ∙ e)

regroup : (c r u : String) → c ++ "/" ++ (r ++ "/" ++ u) ≡ c ++ "/" ++ r ++ "/" ++ u
regroup c r u = simp append_assoc

pub implies_trans :
    (c d e : Capability) → c ≢ "" → implies c d ≡ true → implies d e ≡ true → implies c e ≡ true
implies_trans c d e n h k = Covers-implies c e (go (implies-Covers c d h) (implies-Covers d e k))
  where
    below : (r : String) → c ++ "/" ++ r ≡ d → Covers d e → Covers c e
    below r p (inl q) = inr (inr (r, p ∙ q))
    below r p (inr (inl q)) = absurd (ne-root_of_prefix c r n (p ∙ q))
    below r p (inr (inr (u, q))) =
        inr (inr (r ++ "/" ++ u, regroup c r u ∙ ap (λ v. v ++ "/" ++ u) p ∙ q))

    go : Covers c d → Covers d e → Covers c e
    go (inl p) w = subst (λ x. Covers x e) (sym p) w
    go (inr (inl p)) w = inr (inl p)
    go (inr (inr (r, p))) w = below r p w
