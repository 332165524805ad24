-- ===== src/Types/Hardware/Amounts.antt =====
-- types/resources.go: what adding and subtracting do to memory and disk.
use device_management_servic.Common.{
  ℕ, ◌+◌, ◌-◌, ◌%◌, ◌≤◌, Result-cases, ok, ◌≡◌, refl, arith, inl, inr,
}
use device_management_servic.Ucan.Token.{u64_mod}
use device_management_servic.Types.Hardware.{
  Numbers, Resources, add_u64, subtract_u64, gpus_subtract, cpu_subtract, add, subtract,
}

-- The amounts that are whole numbers.
pub data Meter : Type 0 where
  memory storage : Meter

abbrev pub amount : {F : Type 0} → Meter → Resources F → ℕ
amount memory r = r.ram.size
amount storage r = r.disk.size

pub subtract_u64_lem : (a b c : ℕ) → subtract_u64 a b ≡ ok c → (b ≤ a) × (c ≡ a - b)
unfolding subtract_u64
subtract_u64_lem a b c h = ground arith

each :
    {F : Type 0} (r other left : Resources F)
    → (other.ram.size ≤ r.ram.size) × (left.ram.size ≡ r.ram.size - other.ram.size)
    → (other.disk.size ≤ r.disk.size) × (left.disk.size ≡ r.disk.size - other.disk.size)
    → (k : Meter) → (amount k other ≤ amount k r) × (amount k left ≡ amount k r - amount k other)
each r other left m d memory = m
each r other left m d storage = d

module _ {F : Type 0} (numbers : Numbers F) where
  pub amount-add :
      (k : Meter) (r other : Resources F)
      → amount k (add numbers r other) ≡ (amount k r + amount k other) % u64_mod
  unfolding add add_u64
  amount-add memory r other = refl
  amount-add storage r other = refl

  -- A subtraction that succeeds was of no more than there is, and leaves the difference.
  pub amount-subtract :
      (k : Meter) (r other : Resources F)
      → (subtract numbers r other).0 ≡ ok tt
      → (amount k other ≤ amount k r)
        × (amount k (subtract numbers r other).1 ≡ amount k r - amount k other)
  unfolding subtract
  amount-subtract k r other h = elim (Result-cases (cpu_subtract numbers r.cpu other.cpu)) [
    | inr (e, p) ↦ cc (rw (p, subtract) at h)
    | inl (c, p) ↦ elim (Result-cases (subtract_u64 r.ram.size other.ram.size)) [
      | inr (e, q) ↦ cc (rw (p, q, subtract) at h)
      | inl (m, q) ↦ elim (Result-cases (subtract_u64 r.disk.size other.disk.size)) [
        | inr (e, s) ↦ cc (rw (p, q, s, subtract) at h)
        | inl (d, s) ↦
            let mem = subtract_u64_lem r.ram.size other.ram.size m q in
            let dis = subtract_u64_lem r.disk.size other.disk.size d s in
            rw (p, q, s, subtract)
              (each r other
                (record {
                  cpu = c;
                  gpus = (gpus_subtract r.gpus other.gpus).1;
                  ram = record r.ram { size = m };
                  disk = record r.disk { size = d };
                })
                mem dis k)
      ]
    ]
  ]
