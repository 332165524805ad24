-- ===== src/Resources/Free.antt =====
-- dms/resources/resource_manager.go: what `GetFreeResources` and `checkCapacity` answer and leave.
use device_management_servic.Common.{
  ℕ, ◌+◌, ◌≤◌, ◌<◌, Option, none, some, Result, Result-cases, ok, err, List, ◌≡◌, refl, arith, inl,
  inr,
}
use device_management_servic.Ucan.Token.{u64_mod}
use device_management_servic.Types.Hardware.{Numbers, Gpu, Resources, no_resources, subtract}
use device_management_servic.Types.Hardware.Amounts.{
  Meter, amount, memory, storage, amount-subtract,
}
use device_management_servic.Resources.{
  DefaultManager, get_onboarded_resources, get_total_allocation, total_committed, free_of, share,
}
use device_management_servic.Resources.Totals.{total, add_all-total, amount-no_resources}

-- What is allotted, and what there is: nothing before the onboarded resources are read.
unfoldable pub used : {F : Type 0} → Meter → DefaultManager F → ℕ
unfolding total
used k d = total k d.allocations + total k d.committed_resources

unfoldable pub capacity : {F : Type 0} → Meter → DefaultManager F → ℕ
capacity k d = elim d.onboarded_resources [ none ↦ 0 | some r ↦ amount k r ]

-- No more is allotted than there is, in 64 bits.
pub record WithinCapacity {F : Type 0} (k : Meter) (d : DefaultManager F) : Type 0 where
  pub within : used k d ≤ capacity k d
  pub fits : capacity k d < u64_mod

-- What the database holds, where it answers, has 64 bits.
abbrev pub Sized : {F : Type 0} → Meter → Result (Resources F) → Type 0
Sized k (err e) = Unit
Sized k (ok r) = amount k r < u64_mod

-- Changes that only load or share: the maps stay.
pub record SameMaps {F : Type 0} (d e : DefaultManager F) : Type 0 where
  pub same_committed : e.committed_resources ≡ d.committed_resources
  pub same_allocations : e.allocations ≡ d.allocations

abbrev with_onboarded : {F : Type 0} → Option (Resources F) → DefaultManager F → DefaultManager F
with_onboarded o d = record d { onboarded_resources = o }

amount-gpus :
    {F : Type 0} (k : Meter) (gpus : List Gpu) (r : Resources F)
    → amount k (record r { gpus = gpus }) ≡ amount k r
amount-gpus memory gpus r = refl
amount-gpus storage gpus r = refl

module _ {F : Type 0} (k : Meter) where
  pub used-SameMaps : (d e : DefaultManager F) → SameMaps d e → used k e ≡ used k d
  unfolding used
  used-SameMaps d e s = rw (s.same_committed, s.same_allocations) refl

  pub share-SameMaps : (gpus : List Gpu) (d : DefaultManager F) → SameMaps d (share gpus d)
  unfolding share
  share-SameMaps gpus d =
      elim d.onboarded_resources
        as (λ o. SameMaps (with_onboarded o d) (share gpus (with_onboarded o d))) [
          | none ↦ record { same_committed = refl; same_allocations = refl }
          | some r ↦ record { same_committed = refl; same_allocations = refl }
        ]

  pub capacity-share :
      (gpus : List Gpu) (d : DefaultManager F) → capacity k (share gpus d) ≡ capacity k d
  unfolding capacity share
  capacity-share gpus d =
      elim d.onboarded_resources
        as (λ o. capacity k (share gpus (with_onboarded o d)) ≡ capacity k (with_onboarded o d)) [
          | none ↦ refl
          | some r ↦ amount-gpus k gpus r
        ]

  pub WithinCapacity-share :
      (gpus : List Gpu) (d : DefaultManager F)
      → WithinCapacity k d
      → WithinCapacity k (share gpus d)
  WithinCapacity-share gpus d w =
      let u = used-SameMaps d (share gpus d) (share-SameMaps gpus d) in
      let c = capacity-share gpus d in
      record { within = omega (arith, u, c, w.within); fits = omega (arith, c, w.fits) }

  pub get_onboarded-SameMaps :
      (stored : Result (Resources F)) (d : DefaultManager F)
      → SameMaps d (get_onboarded_resources stored d).1
  unfolding get_onboarded_resources
  get_onboarded-SameMaps (ok l) d =
      elim d.onboarded_resources
        as (λ o.
          SameMaps (with_onboarded o d) (get_onboarded_resources (ok l) (with_onboarded o d)).1) [
            | some r ↦ record { same_committed = refl; same_allocations = refl }
            | none ↦ record { same_committed = refl; same_allocations = refl }
          ]
  get_onboarded-SameMaps (err e) d =
      elim d.onboarded_resources
        as (λ o.
          SameMaps (with_onboarded o d) (get_onboarded_resources (err e) (with_onboarded o d)).1) [
            | some r ↦ record { same_committed = refl; same_allocations = refl }
            | none ↦ record { same_committed = refl; same_allocations = refl }
          ]

  -- Loading keeps what was within capacity so, and what it returns is what there is.
  pub get_onboarded-Within :
      (stored : Result (Resources F)) (d : DefaultManager F)
      → Sized k stored
      → WithinCapacity k d
      → WithinCapacity k (get_onboarded_resources stored d).1
  unfolding used capacity get_onboarded_resources
  get_onboarded-Within (ok l) d =
      elim d.onboarded_resources
        as (λ o.
          Sized {F = F} k (ok l)
          → WithinCapacity k (with_onboarded o d)
          → WithinCapacity k (get_onboarded_resources (ok l) (with_onboarded o d)).1) [
            | some r ↦ λ s w. w
            | none ↦ λ s w. let z = w.within in record { within = omega (arith, z); fits = s }
          ]
  get_onboarded-Within (err e) d =
      elim d.onboarded_resources
        as (λ o.
          Sized {F = F} k (err e)
          → WithinCapacity k (with_onboarded o d)
          → WithinCapacity k (get_onboarded_resources (err e) (with_onboarded o d)).1) [
            | some r ↦ λ s w. w
            | none ↦ λ s w. w
          ]

  pub get_onboarded-onboarded :
      (stored : Result (Resources F)) (d : DefaultManager F) (r : Resources F)
      → (get_onboarded_resources stored d).0 ≡ ok r
      → (get_onboarded_resources stored d).1.onboarded_resources ≡ some r
  unfolding get_onboarded_resources
  get_onboarded-onboarded (ok l) d r =
      elim d.onboarded_resources
        as (λ o.
          (get_onboarded_resources (ok l) (with_onboarded o d)).0 ≡ ok r
          → (get_onboarded_resources (ok l) (with_onboarded o d)).1.onboarded_resources ≡ some r) [
            | some o ↦ λ h. cc
            | none ↦ λ h. cc
          ]
  get_onboarded-onboarded (err e) d r =
      elim d.onboarded_resources
        as (λ o.
          (get_onboarded_resources (err e) (with_onboarded o d)).0 ≡ ok r
          → (get_onboarded_resources (err e) (with_onboarded o d)).1.onboarded_resources ≡ some r) [
            | some o ↦ λ h. cc
            | none ↦ λ h. cc
          ]

  -- What is left of the onboarded resources, where no sum wraps around.
  pub free_of-amount :
      (numbers : Numbers F) (onboarded allocated committed : Resources F)
      → (free_of numbers onboarded allocated committed).0 ≡ ok tt
      → amount k (free_of numbers onboarded allocated committed).1
          + amount k allocated
          + amount k committed
        ≡ amount k onboarded
  unfolding free_of
  free_of-amount numbers onboarded allocated committed h =
      elim (Result-cases (subtract numbers onboarded allocated).0) [
        | inr (e, p) ↦ cc (rw (p, free_of) at h)
        | inl (done, p) ↦
            let one = amount-subtract numbers k onboarded allocated p in
            let two =
              amount-subtract numbers k (subtract numbers onboarded allocated).1 committed
                (rw (p, free_of) at h) in
            rw (p, free_of) (omega (arith, one, two))
      ]

  pub get_total_allocation-amount :
      (numbers : Numbers F) (d : DefaultManager F)
      → used k d < u64_mod
      → amount k (get_total_allocation numbers d) ≡ total k d.allocations
  unfolding get_total_allocation used
  get_total_allocation-amount numbers d w =
      let z = amount-no_resources numbers k in
      let sum = add_all-total k numbers (no_resources numbers) d.allocations (omega (arith, z)) in
      omega (arith, sum, z, w)

  pub total_committed-amount :
      (numbers : Numbers F) (d : DefaultManager F)
      → used k d < u64_mod
      → amount k (total_committed numbers d) ≡ total k d.committed_resources
  unfolding total_committed used
  total_committed-amount numbers d w =
      let z = amount-no_resources numbers k in
      let sum =
        add_all-total k numbers (no_resources numbers) d.committed_resources (omega (arith, z)) in
      omega (arith, sum, z, w)
