-- ===== src/Orchestrator/Update.antt =====
-- dms/orchestrator/manifest_diff.go: what an update that `validateEnsembleUpdate` accepts keeps.
use mathlib.Core.List.Memᴰ
use device_management_servic.Common.{
  String, Bool, Bool-cases, true, false, if◌then◌else◌, str_eq, str_eq_iff, eq_int, List, [], ◌∷◌,
  Memᴰ, any, any-Memᴰ, and-true, or-true, Error, is_nil, some, Result, ok, err, other_error, guard,
  guard-eq-ok, ◌>>◌, >>=-eq-ok, ◌&&◌, ◌||◌, not, ◌≡◌, refl, sym, inl, inr, ◌⊎◌,
}
use device_management_servic.Common.Map.{Map, lookup}
use device_management_servic.Ensemble.{
  NodeIdGenerator, EnsembleConfig, NodeConfig, PortConfig, EdgeConstraint, strategy, supervised,
  all_nodes, node,
}
use device_management_servic.Ensemble.Location.{
  Location, satisfies, validate_location_constraints_update, validate_location-satisfies,
}
use device_management_servic.Ensemble.Nodes.{chosen}
use device_management_servic.Orchestrator.Diff.{lookup-relocated}
use device_management_servic.Orchestrator.{contains, exists_in, each_ok, identify_relocated_nodes}
use device_management_servic.Orchestrator.Validate.{
  valid_port, valid_node, valid_edge, validate_ensemble_update,
}

each_ok-Memᴰ :
    {X : Type 0} (xs : List X) (step : X → Result (Unit {0})) {x : X}
    → each_ok xs step ≡ ok tt
    → Memᴰ x xs
    → step x ≡ ok tt
each_ok-Memᴰ (y ∷ xs) step h (Memᴰ.head e) =
    let (done, p, rest) = >>=-eq-ok (step y) (λ u. each_ok xs step) h in rw e p
each_ok-Memᴰ (y ∷ xs) step h (Memᴰ.tail m) =
    let (done, p, rest) = >>=-eq-ok (step y) (λ u. each_ok xs step) h in each_ok-Memᴰ xs step rest m
each_ok-Memᴰ [] step h m = absurd (Memᴰ.not-nil m)

guard-true : (b : Bool) (e : Error) → guard b e ≡ ok tt → b ≡ true
guard-true true e h = refl
guard-true false e h = cc

four_ok : (a b c d : Result (Unit {0})) → (a >> b >> c >> d) ≡ ok tt → (b ≡ ok tt) × (c ≡ ok tt)
four_ok (ok x) (ok y) (ok z) d h = (refl, refl)
four_ok (ok x) (ok y) (err e) d h = cc
four_ok (ok x) (err e) c d h = cc
four_ok (err e) b c d h = cc

-- An entry that a map has.
lookup-Memᴰ : {V : Type 0} (k : String) (v : V) (m : Map V) → lookup k m ≡ some v → Memᴰ (k, v) m
unfolding lookup
lookup-Memᴰ k v [] h = cc
lookup-Memᴰ k v ((j, w) ∷ m) h = elim (Bool-cases (str_eq j k)) [
  | inl same ↦
      let e : some w ≡ some v = rw (same, if◌then◌else◌) at h in
      let f : v ≡ w = cc in Memᴰ.head (λ i. (sym ((str_eq_iff j k).0 same) i, f i))
  | inr other ↦ Memᴰ.tail (lookup-Memᴰ k v m (rw (other, if◌then◌else◌) at h))
]

ends : (a b c d : String) → (str_eq a b && str_eq c d) ≡ true → (a ≡ b) × (c ≡ d)
ends a b c d h =
    let (p, q) = and-true (str_eq a b) (str_eq c d) h in
    ((str_eq_iff a b).0 p, (str_eq_iff c d).0 q)

module _ {A K : Type 0} (gen : NodeIdGenerator) (current modified : EnsembleConfig A K) where
  validated :
      validate_ensemble_update gen current modified ≡ ok tt
      → (each_ok (all_nodes gen current) (valid_node gen modified) ≡ ok tt)
        × (each_ok modified.edges (valid_edge gen current modified) ≡ ok tt)
  unfolding validate_ensemble_update
  validated h =
      four_ok
        (guard
          (is_nil (supervised current.supervisor) || not (is_nil (supervised modified.supervisor)))
          (other_error "removing supervisor is not allowed"))
        (each_ok (all_nodes gen current) (valid_node gen modified))
        (each_ok modified.edges (valid_edge gen current modified))
        (guard (str_eq (strategy current.supervisor) (strategy modified.supervisor))
          (other_error "changing supervisor strategy is not supported"))
        h

  -- A node of the old deployment that stays on its peer.
  pub record Stays (id : String) (c n : NodeConfig) : Type 0 where
    pub was : lookup id (all_nodes gen current) ≡ some c
    pub is : node gen modified id ≡ some n
    pub same_peer : n.peer ≡ c.peer

  Stays-valid :
      (id : String) (c n : NodeConfig)
      → validate_ensemble_update gen current modified ≡ ok tt
      → Stays id c n
      → (validate_location_constraints_update c.location n.location ≡ true)
        × (each_ok c.ports
              (λ p. guard (valid_port c n p) (other_error "changing node's ports is not supported"))
            ≡ ok tt)
  unfolding valid_node
  Stays-valid id c n h s =
      let v =
        each_ok-Memᴰ (all_nodes gen current) (valid_node gen modified) (validated h).0
          (lookup-Memᴰ id c (all_nodes gen current) s.was) in
      let w = rw (s.is, (str_eq_iff n.peer c.peer).1 s.same_peer, valid_node) at v in
      guard-eq-ok (validate_location_constraints_update c.location n.location) _ _ w

  -- If an update is accepted, a node that it leaves on its peer may stay where it is: each location
  -- that satisfied its constraints satisfies the new ones.
  pub validate-satisfies :
      (id : String) (c n : NodeConfig) (l : Location)
      → validate_ensemble_update gen current modified ≡ ok tt
      → Stays id c n
      → satisfies l c.location ≡ true
      → satisfies l n.location ≡ true
  validate-satisfies id c n l h s =
      validate_location-satisfies c.location n.location l (Stays-valid id c n h s).0

  -- If an update is accepted, a node that it leaves on its peer keeps each port of each allocation
  -- that it keeps.
  pub validate-ports :
      (id : String) (c n : NodeConfig) (p : PortConfig)
      → validate_ensemble_update gen current modified ≡ ok tt
      → Stays id c n
      → Memᴰ p c.ports
      → contains c.allocations p.allocation ≡ true
      → contains n.allocations p.allocation ≡ true
      → (q : PortConfig) × Memᴰ q n.ports
        × (q.allocation ≡ p.allocation)
        × (eq_int q.public p.public ≡ true)
        × (eq_int q.private p.private ≡ true)
  unfolding valid_port
  validate-ports id c n p h s m before after =
      let v = each_ok-Memᴰ c.ports _ (Stays-valid id c n h s).1 m in
      let t = guard-true (valid_port c n p) _ v in
      let found : any n.ports (λ q.
        str_eq q.allocation p.allocation && eq_int q.public p.public && eq_int q.private p.private)
          ≡ true =
        rw (before, after) at t in
      let (q, k, same) = any-Memᴰ n.ports _ found in
      let (both, private) = and-true _ _ same in
      let (name, public) = and-true _ _ both in
      (q, k, (str_eq_iff q.allocation p.allocation).0 name, public, private)

  Stays-listed :
      (id : String) (c n : NodeConfig)
      → Stays id c n
      → (exists_in id (all_nodes gen current) ≡ true)
        × (exists_in id (identify_relocated_nodes gen current modified) ≡ false)
  unfolding chosen
  Stays-listed id c n s = (
    rw (s.was, exists_in) refl,
    rw
        (
          lookup-relocated gen current modified id,
          s.was,
          s.is,
          (str_eq_iff c.peer n.peer).1 (sym s.same_peer),
          chosen,
          exists_in,
        )
        refl,
  )

  -- If an update is accepted, each of its edges between two nodes that it leaves on the peers that
  -- the old deployment lists them with is an old edge, in one direction or the other.
  pub validate-edges :
      (e : EdgeConstraint) (c n d o : NodeConfig)
      → validate_ensemble_update gen current modified ≡ ok tt
      → Memᴰ e modified.edges
      → Stays e.s c n
      → Stays e.t d o
      → (f : EdgeConstraint) × Memᴰ f current.edges
        × (((f.s ≡ e.s) × (f.t ≡ e.t)) ⊎ ((f.s ≡ e.t) × (f.t ≡ e.s)))
  unfolding valid_edge
  validate-edges e c n d o h m from to =
      let (es, rs) = Stays-listed e.s c n from in
      let (et, rt) = Stays-listed e.t d o to in
      let v = each_ok-Memᴰ modified.edges _ (validated h).1 m in
      let t = guard-true _ _ v in
      let found : any current.edges
            (λ f. (str_eq f.s e.s && str_eq f.t e.t) || (str_eq f.s e.t && str_eq f.t e.s))
          ≡ true =
        rw (es, et, rs, rt) at t in
      let (f, k, same) = any-Memᴰ current.edges _ found in
      (
        f,
        k,
        elim (or-true (str_eq f.s e.s && str_eq f.t e.t) (str_eq f.s e.t && str_eq f.t e.s) same) [
          | inl b ↦ inl (ends f.s e.s f.t e.t b)
          | inr b ↦ inr (ends f.s e.t f.t e.s b)
        ],
      )
