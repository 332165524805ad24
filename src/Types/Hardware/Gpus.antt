-- ===== src/Types/Hardware/Gpus.antt =====
-- types/hardware.go: what a subtraction takes from the memory of each GPU.
use device_management_servic.Common.{
  ℕ, ◌+◌, ℤ, true, false, Bool-cases, eq_int, List, [], ◌∷◌, Option, Option-cases, none, some,
  Result-cases, ok, ◌≡◌, refl, ap, ◌∙◌, sym, arith, inl, inr,
}
use device_management_servic.Types.Hardware.{
  Numbers, Gpu, Resources, gpu_at, gpu_subtract, gpus_subtract, subtract_u64, cpu_subtract,
  subtract,
}
use device_management_servic.Types.Hardware.Amounts.{subtract_u64_lem}

-- The memory of a GPU, where there is one.
abbrev pub vram_of : Option Gpu → ℕ
vram_of none = 0
vram_of (some g) = g.vram

-- A GPU has lost what the other list has for its index.
pub record Loses (other : List Gpu) (g l : Gpu) : Type 0 where
  pub same_index : l.index ≡ g.index
  pub lost : l.vram + vram_of (gpu_at g.index other) ≡ g.vram

-- Neither there was a GPU nor is there one, or it has lost its part.
abbrev pub Taken : List Gpu → Option Gpu → Option Gpu → Type 0
Taken other none none = Unit
Taken other none (some l) = ⊥
Taken other (some g) none = ⊥
Taken other (some g) (some l) = Loses other g l

gpu_subtract-Loses :
    (other : List Gpu) (g o l : Gpu)
    → gpu_at g.index other ≡ some o
    → gpu_subtract g o ≡ ok l
    → Loses other g l
unfolding gpu_subtract
gpu_subtract-Loses other g o l p h = elim (Result-cases (subtract_u64 g.vram o.vram)) [
  | inr (e, q) ↦ cc (rw (q, gpu_subtract) at h)
  | inl (left, q) ↦
      let (le, minus) = subtract_u64_lem g.vram o.vram left q in
      let e : ok (record g { vram = left }) ≡ ok l = rw (q, gpu_subtract) at h in
      let f : record g { vram = left } ≡ l = cc in
      let index : g.index ≡ l.index = ap (λ x. x.index) f in
      let rest : left ≡ l.vram = ap (λ x. x.vram) f in
      record { same_index = sym index; lost = rw (p, vram_of) (omega (arith, le, minus, rest)) }
]

gpu_at-Taken :
    (other : List Gpu) (i : ℤ) (g l : Gpu) (gs ls : List Gpu)
    → Loses other g l
    → Taken other (gpu_at i gs) (gpu_at i ls)
    → Taken other (gpu_at i (g ∷ gs)) (gpu_at i (l ∷ ls))
unfolding gpu_at
gpu_at-Taken other i g l gs ls head rest = elim (Option-cases (gpu_at i gs)) [
  | inl p ↦ elim (Option-cases (gpu_at i ls)) [
    | inl q ↦ elim (Bool-cases (eq_int g.index i)) [
      | inl here ↦
          let there : eq_int l.index i ≡ true = ap (λ j. eq_int j i) head.same_index ∙ here in
          rw (p, q, here, there, gpu_at) head
      | inr away ↦
          let too : eq_int l.index i ≡ false = ap (λ j. eq_int j i) head.same_index ∙ away in
          rw (p, q, away, too, gpu_at) tt
    ]
    | inr (b, q) ↦ absurd (rw (p, q) at rest)
  ]
  | inr (a, p) ↦ elim (Option-cases (gpu_at i ls)) [
    | inl q ↦ absurd (rw (p, q) at rest)
    | inr (b, q) ↦ rw (p, q, gpu_at) (rw (p, q) at rest)
  ]
]

-- A subtraction that succeeds takes from each GPU what the other list has for its index.
pub gpus_subtract-Taken :
    (gs other : List Gpu) (i : ℤ)
    → (gpus_subtract gs other).0 ≡ ok tt
    → Taken other (gpu_at i gs) (gpu_at i (gpus_subtract gs other).1)
unfolding gpus_subtract gpu_at
gpus_subtract-Taken [] other i h = tt
gpus_subtract-Taken (g ∷ gs) other i h = elim (Option-cases (gpu_at g.index other)) [
  | inl p ↦
      rw (p, gpus_subtract)
        (gpu_at-Taken other i g g gs (gpus_subtract gs other).1
          (record { same_index = refl; lost = rw (p, vram_of) (omega arith) })
          (gpus_subtract-Taken gs other i (rw (p, gpus_subtract) at h)))
  | inr (o, p) ↦ elim (Result-cases (gpu_subtract g o)) [
    | inr (e, q) ↦ cc (rw (p, q, gpus_subtract) at h)
    | inl (l, q) ↦
        rw (p, q, gpus_subtract)
          (gpu_at-Taken other i g l gs (gpus_subtract gs other).1
            (gpu_subtract-Loses other g o l p q)
            (gpus_subtract-Taken gs other i (rw (p, q, gpus_subtract) at h)))
  ]
]

-- `Resources.Subtract` subtracts the GPUs.
pub gpus-subtract :
    {F : Type 0} (numbers : Numbers F) (r other : Resources F)
    → (subtract numbers r other).0 ≡ ok tt
    → ((gpus_subtract r.gpus other.gpus).0 ≡ ok tt)
      × ((subtract numbers r other).1.gpus ≡ (gpus_subtract r.gpus other.gpus).1)
unfolding subtract
gpus-subtract numbers r other h = elim (Result-cases (cpu_subtract numbers r.cpu other.cpu)) [
  | inr (e, p) ↦ cc (rw (p, subtract) at h)
  | inl (c, p) ↦ elim (Result-cases (subtract_u64 r.ram.size other.ram.size)) [
    | inr (e, q) ↦ cc (rw (p, q, subtract) at h)
    | inl (m, q) ↦ elim (Result-cases (subtract_u64 r.disk.size other.disk.size)) [
      | inr (e, s) ↦ cc (rw (p, q, s, subtract) at h)
      | inl (d, s) ↦ (rw (p, q, s, subtract) at h, rw (p, q, s, subtract) refl)
    ]
  ]
]
