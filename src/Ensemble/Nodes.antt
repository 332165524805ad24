-- ===== src/Ensemble/Nodes.antt =====
-- dms/jobs/types/ensemble.go: the loops that build maps, by what they leave under each key.
use device_management_servic.Common.{
  String, Bool-cases, if◌then◌else◌, str_eq, str_eq_iff, [], ◌∷◌, Option, Option-cases, none, some,
  ◌≡◌, refl, arith, inl, inr,
}
use device_management_servic.Common.Map.{Map, lookup, insert, lookup-insert}
use device_management_servic.Ensemble.{
  NodeIdGenerator, EnsembleConfig, select, build_standby_nodes, all_nodes,
}

-- Each key stands once, as in a Go map.
abbrev pub Distinct {ℓ} : {V : Type ℓ} → Map V → Type ℓ
Distinct [] = Unit
Distinct ((k, v) ∷ m) = (lookup k m ≡ none) × Distinct m

pub insert-Distinct :
    {V : Type 0} (k : String) (v : V) (m : Map V) → Distinct m → Distinct (insert k v m)
unfolding insert lookup
insert-Distinct k v [] d = (refl, tt)
insert-Distinct k v ((j, w) ∷ m) d = elim (Bool-cases (str_eq j k)) [
  | inl same ↦ rw (same, if◌then◌else◌) (rw ((str_eq_iff j k).0 same) at d.0, d.1)
  | inr other ↦
      rw (other, if◌then◌else◌)
        (
          ground (arith, lookup-insert k j v m, str_eq_iff k j, str_eq_iff j k, d.0),
          insert-Distinct k v m d.1,
        )
]

pub select-Distinct :
    {V W : Type 0} (f : String → V → Option W) (m : Map V) (acc : Map W)
    → Distinct acc
    → Distinct (select f m acc)
unfolding select
select-Distinct f [] acc d = d
select-Distinct f ((k, v) ∷ m) acc d = elim (Option-cases (f k v)) [
  | inl p ↦ rw (p, select) (select-Distinct f m acc d)
  | inr (w, p) ↦ rw (p, select) (select-Distinct f m (insert k w acc) (insert-Distinct k w acc d))
]

-- What a selection leaves under a key: what was selected for it, or what was there.
unfoldable pub chosen :
    {V W : Type 0} → (String → V → Option W) → String → Option V → Option W → Option W
chosen f k none old = old
chosen f k (some v) old = elim (f k v) [ none ↦ old | some w ↦ some w ]

pub lookup-select :
    {V W : Type 0} (f : String → V → Option W) (m : Map V) (acc : Map W) (k : String)
    → Distinct m
    → lookup k (select f m acc) ≡ chosen f k (lookup k m) (lookup k acc)
unfolding select lookup chosen
lookup-select f [] acc k d = refl
lookup-select f ((j, v) ∷ m) acc k d = elim (Bool-cases (str_eq j k)) [
  | inl same ↦
      let at_k : j ≡ k = (str_eq_iff j k).0 same in
      let gone : lookup k m ≡ none = rw at_k at d.0 in
      elim (Option-cases (f j v)) [
        | inl p ↦
            let q : f k v ≡ none = rw at_k at p in
            let ih : lookup k (select f m acc) ≡ chosen f k (lookup k m) (lookup k acc) =
              lookup-select f m acc k d.1 in
            rw (p, same, if◌then◌else◌, chosen, q) (rw gone at ih)
        | inr (w, p) ↦
            let q : f k v ≡ some w = rw at_k at p in
            let ih : lookup k (select f m (insert j w acc))
                ≡ chosen f k (lookup k m) (lookup k (insert j w acc)) =
              lookup-select f m (insert j w acc) k d.1 in
            rw (p, same, if◌then◌else◌, chosen, q) (rw (gone, lookup-insert j k w acc, same) at ih)
      ]
  | inr other ↦ elim (Option-cases (f j v)) [
    | inl p ↦ rw (p, other, if◌then◌else◌) (lookup-select f m acc k d.1)
    | inr (w, p) ↦
        let ih : lookup k (select f m (insert j w acc))
            ≡ chosen f k (lookup k m) (lookup k (insert j w acc)) =
          lookup-select f m (insert j w acc) k d.1 in
        rw (p, other, if◌then◌else◌) (rw (lookup-insert j k w acc, other) at ih)
  ]
]

module _ (gen : NodeIdGenerator) where
  pub all_nodes-Distinct : {A K : Type 0} (e : EnsembleConfig A K) → Distinct (all_nodes gen e)
  unfolding all_nodes
  all_nodes-Distinct e =
      select-Distinct (λ k v. some v) (build_standby_nodes gen e.nodes []) _
        (select-Distinct (λ k v. some v) e.nodes [] tt)
