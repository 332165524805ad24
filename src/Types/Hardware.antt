-- ===== src/Types/Hardware.antt =====
-- types/hardware.go, types/resources.go: adding and subtracting resources.
-- `F` stands for Go's floating-point numbers; `Numbers` has what the source does with them. A
-- slice of GPUs is changed in place by `Subtract`, also when it fails half way: so a subtraction
-- gives what is left in the slice together with its outcome.
pub mod Amounts
pub mod Compare
pub mod Gpus
use device_management_servic.Common.{
  ℕ, ◌+◌, ◌-◌, ◌%◌, String, Bool, ℤ, eq_int, List, [], ◌∷◌, Option, none, some, Result, ok, err,
  other_error, ltb, if◌then◌else◌,
}
use device_management_servic.Ucan.Token.{u64_mod}

-- Floating-point numbers: `<`, `==` and `*`, and sums and differences rounded to two places.
pub record Numbers (F : Type 0) : Type 0 where
  pub nought : F
  pub below : F → F → Bool
  pub same : F → F → Bool
  pub times : F → F → F
  pub plus : F → F → F
  pub minus : F → F → F

pub record Cpu (F : Type 0) : Type 0 where
  pub clock_speed : F
  pub cores : F
  pub model : String
  pub vendor : String
  pub threads : ℤ
  pub architecture : String
  pub cache_size : ℕ

pub record Ram : Type 0 where
  pub size : ℕ
  pub clock_speed : ℕ
  pub kind : String

pub record Disk : Type 0 where
  pub size : ℕ
  pub model : String
  pub vendor : String
  pub kind : String
  pub interface : String
  pub read_speed : ℕ
  pub write_speed : ℕ

pub record Gpu : Type 0 where
  pub index : ℤ
  pub vendor : String
  pub pci_address : String
  pub model : String
  pub vram : ℕ
  pub cores : ℕ
  pub uuid : String

pub record Resources (F : Type 0) : Type 0 where
  pub cpu : Cpu F
  pub gpus : List Gpu
  pub ram : Ram
  pub disk : Disk

-- `uint64` addition
unfoldable pub add_u64 : ℕ → ℕ → ℕ
add_u64 a b = (a + b) % u64_mod

-- `a - b`, where `a < b` is an error
unfoldable pub subtract_u64 : ℕ → ℕ → Result ℕ
subtract_u64 a b = if ltb a b then err (other_error "underflow") else ok (a - b)

-- The entry of `otherGPUs` for an index: the last GPU that has it.
unfoldable pub gpu_at : ℤ → List Gpu → Option Gpu
gpu_at i [] = none
gpu_at i (g ∷ gs) = elim (gpu_at i gs) [
  | some found ↦ some found
  | none ↦ if eq_int g.index i then some g else none
]

-- `GPU.Add`
unfoldable pub gpu_add : Gpu → Gpu → Gpu
gpu_add g other = record g { vram = add_u64 g.vram other.vram }

-- The loop of `GPUs.Add`
unfoldable pub gpus_add_each : List Gpu → List Gpu → List Gpu
gpus_add_each [] other = []
gpus_add_each (g ∷ gs) other =
    elim (gpu_at g.index other) [ none ↦ g | some o ↦ gpu_add g o ] ∷ gpus_add_each gs other

-- `GPUs.Add`
unfoldable pub gpus_add : List Gpu → List Gpu → List Gpu
gpus_add gpus [] = gpus
gpus_add [] (o ∷ os) = o ∷ os
gpus_add (g ∷ gs) (o ∷ os) = gpus_add_each (g ∷ gs) (o ∷ os)

-- `GPU.Subtract`
unfoldable pub gpu_subtract : Gpu → Gpu → Result Gpu
gpu_subtract g other = elim (subtract_u64 g.vram other.vram) [
  | err e ↦ err e
  | ok left ↦ ok (record g { vram = left })
]

-- `GPUs.Subtract`
unfoldable pub gpus_subtract : List Gpu → List Gpu → Result (Unit {0}) × List Gpu
gpus_subtract [] other = (ok tt, [])
gpus_subtract (g ∷ gs) other =
    let rest = gpus_subtract gs other in
    elim (gpu_at g.index other) [
      | none ↦ (rest.0, g ∷ rest.1)
      | some o ↦ elim (gpu_subtract g o) [
        | err e ↦ (err e, g ∷ gs)
        | ok left ↦ (rest.0, left ∷ rest.1)
      ]
    ]

module _ {F : Type 0} (numbers : Numbers F) where
  -- The zero value `Resources{}`
  abbrev pub no_resources : Resources F
  no_resources = record {
    cpu = record {
      clock_speed = numbers.nought;
      cores = numbers.nought;
      model = "";
      vendor = "";
      threads = ℤ.pos 0;
      architecture = "";
      cache_size = 0;
    };
    gpus = [];
    ram = record { size = 0; clock_speed = 0; kind = "" };
    disk = record {
      size = 0;
      model = "";
      vendor = "";
      kind = "";
      interface = "";
      read_speed = 0;
      write_speed = 0;
    };
  }

  -- `CPU.Add`
  abbrev pub cpu_add : Cpu F → Cpu F → Cpu F
  cpu_add c other = record c { cores = numbers.plus c.cores other.cores }

  -- `CPU.Subtract`
  unfoldable pub cpu_subtract : Cpu F → Cpu F → Result (Cpu F)
  cpu_subtract c other =
      if numbers.below c.cores other.cores
      then err (other_error "core: underflow")
      else ok (record c { cores = numbers.minus c.cores other.cores })

  -- `Resources.Add`, with `RAM.Add` and `Disk.Add`: none of them fails.
  unfoldable pub add : Resources F → Resources F → Resources F
  add r other = record {
    cpu = cpu_add r.cpu other.cpu;
    gpus = gpus_add r.gpus other.gpus;
    ram = record r.ram { size = add_u64 r.ram.size other.ram.size };
    disk = record r.disk { size = add_u64 r.disk.size other.disk.size };
  }

  -- `Resources.Subtract`, with `RAM.Subtract` and `Disk.Subtract`: each part is subtracted in
  -- place, up to the first that fails.
  unfoldable pub subtract : Resources F → Resources F → Result (Unit {0}) × Resources F
  subtract r other = elim (cpu_subtract r.cpu other.cpu) [
    | err e ↦ (err e, r)
    | ok c ↦ elim (subtract_u64 r.ram.size other.ram.size) [
      | err e ↦ (err e, record r { cpu = c })
      | ok m ↦ elim (subtract_u64 r.disk.size other.disk.size) [
        | err e ↦ (err e, record r { cpu = c; ram = record r.ram { size = m } })
        | ok d ↦
            let left = gpus_subtract r.gpus other.gpus in
            (
              left.0,
              record {
                cpu = c;
                gpus = left.1;
                ram = record r.ram { size = m };
                disk = record r.disk { size = d };
              },
            )
      ]
    ]
  ]
