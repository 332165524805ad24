-- ===== src/Resources/Lifecycle.antt =====
-- dms/resources/resource_manager.go: what becomes of the resources of one allocation identifier.
use device_management_servic.Common.{
  String, Bool-cases, Option, none, some, str_eq, str_eq_iff, List, [], ◌∷◌, ◌++◌, ◌≡◌, refl, ap,
  ◌⊎◌, inl, inr,
}
use device_management_servic.Common.Map.{lookup, lookup-insert, lookup-erase}
use device_management_servic.Types.Hardware.{Numbers, Resources}
use device_management_servic.Resources.{Allotment, DefaultManager}
use device_management_servic.Resources.Events.{Event, handle, run}
use device_management_servic.Resources.Effects.{
  Effect, Keyed, stays, committed, uncommitted, allocated, deallocated, handle-Effect, handle-Keyed,
}

-- What is committed and what is allocated for an identifier.
pub record Phase (F : Type 0) : Type 0 where
  pub commitment : Option (Resources F)
  pub allocation : Option (Resources F)

-- The life of an identifier: the resources that are allocated are those that were committed.
pub data Move {F : Type 0} : Phase F → Phase F → Type 0 where
  rest : (p : Phase F) → Move p p
  commit :
      (r : Resources F) (a : Option (Resources F))
      → Move
          (record { commitment = none; allocation = a })
          (record { commitment = some r; allocation = a })
  uncommit :
      (r : Resources F) (a : Option (Resources F))
      → Move
          (record { commitment = some r; allocation = a })
          (record { commitment = none; allocation = a })
  allocate :
      (r : Resources F)
      → Move
          (record { commitment = some r; allocation = none })
          (record { commitment = none; allocation = some r })
  deallocate :
      (r : Resources F) (c : Option (Resources F))
      → Move
          (record { commitment = c; allocation = some r })
          (record { commitment = c; allocation = none })

abbrev pub held : {F : Type 0} → Option (Allotment F) → Option (Resources F)
held none = none
held (some a) = some a.resources

unfoldable pub phase : {F : Type 0} → DefaultManager F → String → Phase F
phase d id = record {
  commitment = held (lookup id d.committed_resources);
  allocation = held (lookup id d.allocations);
}

module _ {F : Type 0} (j : String) where
  Effect-Move : (d e : DefaultManager F) → Keyed d → Effect d e → Move (phase d j) (phase e j)
  unfolding phase
  Effect-Move d e k (stays s) = rw (s.same_committed, s.same_allocations) (rest _)
  Effect-Move d e k (committed id c named fresh p q) = elim (Bool-cases (str_eq id j)) [
    | inr other ↦ rw (p, q, lookup-insert id j c d.committed_resources, other) (rest _)
    | inl same ↦
        let here : lookup j d.committed_resources ≡ none = rw ((str_eq_iff id j).0 same) at fresh in
        rw (p, q, lookup-insert id j c d.committed_resources, same, here) (commit c.resources _)
  ]
  Effect-Move d e k (uncommitted id c found p q) = elim (Bool-cases (str_eq id j)) [
    | inr other ↦ rw (p, q, lookup-erase id j d.committed_resources, other) (rest _)
    | inl same ↦
        let here : lookup j d.committed_resources ≡ some c =
          rw ((str_eq_iff id j).0 same) at found in
        rw (p, q, lookup-erase id j d.committed_resources, same, here) (uncommit c.resources _)
  ]
  Effect-Move d e k (allocated id c a found fresh r p q) = elim (Bool-cases (str_eq id j)) [
    | inr other ↦
        rw
          (p, q, lookup-erase id j d.committed_resources, lookup-insert id j a d.allocations, other)
          (rest _)
    | inl same ↦
        let here : lookup j d.committed_resources ≡ some c =
          rw ((str_eq_iff id j).0 same) at found in
        let free : lookup j d.allocations ≡ none =
          rw (k id c found, (str_eq_iff id j).0 same) at fresh in
        rw
          (
            p,
            q,
            lookup-erase id j d.committed_resources,
            lookup-insert id j a d.allocations,
            same,
            here,
            free,
            r,
          )
          (allocate c.resources)
  ]
  Effect-Move d e k (deallocated id a found p q) = elim (Bool-cases (str_eq id j)) [
    | inr other ↦ rw (p, q, lookup-erase id j d.allocations, other) (rest _)
    | inl same ↦
        let here : lookup j d.allocations ≡ some a = rw ((str_eq_iff id j).0 same) at found in
        rw (p, q, lookup-erase id j d.allocations, same, here) (deallocate a.resources _)
  ]

  -- Whatever a call does, and whether it fails, each identifier rests or makes one move: a
  -- commitment is taken up or given up, or becomes the allocation with the same resources, or the
  -- allocation ends, provided that commitments stand under their identifiers.
  pub handle-Move :
      (numbers : Numbers F) (e : Event F) (d : DefaultManager F)
      → Keyed d
      → Move (phase d j) (phase (handle numbers e d).1 j)
  handle-Move numbers e d k = Effect-Move d (handle numbers e d).1 k (handle-Effect numbers e d)

  -- At some time of the run, `r` is committed and nothing is allocated.
  pub CommittedDuring :
      (numbers : Numbers F) (d : DefaultManager F) (events : List (Event F)) → Resources F → Type 0
  CommittedDuring numbers d events r =
      (before after : List (Event F)) × (events ≡ before ++ after)
      × (phase (run numbers d before) j ≡ record { commitment = some r; allocation = none })

  -- One move back from an allocation.
  before_allocated :
      (p q : Phase F) (r : Resources F)
      → Move p q
      → q.allocation ≡ some r
      → (p.allocation ≡ some r) ⊎ (p ≡ record { commitment = some r; allocation = none })
  before_allocated p q r (rest _) h = inl h
  before_allocated p q r (commit s a) h = inl h
  before_allocated p q r (uncommit s a) h = inl h
  before_allocated p q r (allocate s) h =
      inr (ap (λ (o : Option (Resources F)). record { commitment = o; allocation = none }) h)
  before_allocated p q r (deallocate s c) h = cc

  -- After any calls, the resources that are allocated for an identifier were allocated before the
  -- first call or were once committed for it while nothing was allocated, provided that
  -- commitments stood under their identifiers.
  pub run-allocated_was_committed :
      (numbers : Numbers F) (d : DefaultManager F) (events : List (Event F)) (r : Resources F)
      → Keyed d
      → (phase (run numbers d events) j).allocation ≡ some r
      → ((phase d j).allocation ≡ some r) ⊎ CommittedDuring numbers d events r
  unfolding run CommittedDuring
  run-allocated_was_committed numbers d [] r k h = inl h
  run-allocated_was_committed numbers d (e ∷ events) r k h =
      elim (run-allocated_was_committed numbers (handle numbers e d).1 events r
        (handle-Keyed numbers e d k) h) [
          | inl here ↦
              elim (before_allocated (phase d j) (phase (handle numbers e d).1 j) r
                (handle-Move numbers e d k) here) [
                  | inl early ↦ inl early
                  | inr now ↦ inr ([], e ∷ events, refl, now)
                ]
          | inr (before, after, split, later) ↦
              inr (e ∷ before, after, ap (λ l. e ∷ l) split, later)
        ]
