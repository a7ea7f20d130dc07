-- ===== src/BareMetal/Mapper/Laws.antt =====
-- The sizes, the CPU and the firmware components of the mapper against what the SKU and the machine
-- list.
use machine_api_provider_nvi.Base.{
  ◌≡◌, refl, ap, ◌∙◌, ℕ, ◌+◌, ◌*◌, ◌/◌, ◌<◌, ◌^◌, Option, none, some, List, [], ◌∷◌, map, maybe,
  last_found, All, arith,
}
use machine_api_provider_nvi.Base.Int.{ℤ, pos}
use machine_api_provider_nvi.Base.Int64.{half_range, add64, mul64, quot64, add64-pos, mul64-pos}
use machine_api_provider_nvi.BareMetal.Types.{
  NicoMachine, SkuCpu, SkuMemory, SkuStorage, SkuComponents, Sku, Cpu, Disk,
}
use machine_api_provider_nvi.BareMetal.Mapper.{
  deref_str, mebibytes, memory_of, add_memory, add_cpus, disk_of, build_hardware_details,
  add_components,
}

mebibytes-exact :
    (capacity count : ℕ)
    → capacity * count * 1_000_000 < half_range
    → mebibytes capacity count ≡ pos (capacity * count * 1_000_000 / 1_048_576)
unfolding mebibytes quot64
mebibytes-exact capacity count h =
    rw (mul64-pos capacity count (omega (arith, h))) (rw (mul64-pos (capacity * count) 1_000_000 h))

-- What one entry adds, in whole mebibytes.
abbrev pub mebibytes_of : Option ℕ → Option ℕ → ℕ
mebibytes_of (some capacity) (some count) = capacity * count * 1_000_000 / 1_048_576
mebibytes_of (some capacity) none = 0
mebibytes_of none count = 0

unfoldable pub total_mebibytes : List SkuMemory → ℕ
total_mebibytes [] = 0
total_mebibytes (mem ∷ mems) = mebibytes_of mem.capacity_mb mem.count + total_mebibytes mems

-- The bytes of one entry are within an `int64`.
abbrev pub IsSmall : Option ℕ → Option ℕ → Type 0
IsSmall (some capacity) (some count) = capacity * count * 1_000_000 < half_range
IsSmall (some capacity) none = Unit
IsSmall none count = Unit

-- All entries, and the sum of them, are within an `int64`.
unfoldable pub Fits : List SkuMemory → Type 0
Fits mems =
    All (λ mem. IsSmall mem.capacity_mb mem.count) mems × (total_mebibytes mems < half_range)

one_memory :
    (ram : ℕ) (capacity count : Option ℕ)
    → IsSmall capacity count
    → ram + mebibytes_of capacity count < half_range
    → maybe (memory_of capacity count) (pos ram) (add64 (pos ram))
      ≡ pos (ram + mebibytes_of capacity count)
one_memory ram (some capacity) (some count) s h =
    rw (mebibytes-exact capacity count s) (add64-pos ram _ h)
one_memory ram (some capacity) none s h = ap pos (omega arith)
one_memory ram none count s h = ap pos (omega arith)

add_memory-exact :
    (mems : List SkuMemory) (ram : ℕ)
    → All (λ mem. IsSmall mem.capacity_mb mem.count) mems
    → ram + total_mebibytes mems < half_range
    → add_memory (pos ram) mems ≡ pos (ram + total_mebibytes mems)
unfolding add_memory total_mebibytes
add_memory-exact [] ram s h = ap pos (omega arith)
add_memory-exact (mem ∷ mems) ram s h =
    rw (one_memory ram mem.capacity_mb mem.count s.0 (omega (arith, h))) (
      add_memory-exact mems (ram + mebibytes_of mem.capacity_mb mem.count) s.1 (omega (arith, h))
      ∙ ap pos (omega arith))

-- The capacities are 32-bit numbers.
abbrev pub AreWords : List SkuStorage → Type 0
AreWords = All (λ stor. maybe stor.capacity_mb Unit (λ capacity. capacity < 2 ^ 32))

-- A disk of the listed bytes, or of none.
abbrev pub HasBytes : Option ℕ → Disk → Type 0
HasBytes capacity disk = disk.size_bytes ≡ pos (maybe capacity 0 (λ mb. mb * 1_000_000))

disk_of-HasBytes :
    (stor : SkuStorage)
    → maybe stor.capacity_mb Unit (λ capacity. capacity < 2 ^ 32)
    → HasBytes stor.capacity_mb (disk_of stor)
unfolding disk_of
disk_of-HasBytes stor h = sized stor.capacity_mb h
  where
    sized :
        (capacity : Option ℕ)
        → maybe capacity Unit (λ mb. mb < 2 ^ 32)
        → maybe capacity (pos 0) (λ mb. mul64 (pos mb) (pos 1_000_000))
          ≡ pos (maybe capacity 0 (λ mb. mb * 1_000_000))
    sized none h = refl
    sized (some mb) h = mul64-pos mb 1_000_000 (omega (arith, h))

add_cpus-last :
    (cs : List SkuCpu) (cpu : Cpu)
    → ((add_cpus cpu cs).model ≡ maybe (last_found (λ c. c.model) cs) cpu.model (λ m. m))
      × ((add_cpus cpu cs).count ≡ maybe (last_found (λ c. c.count) cs) cpu.count (λ n. n))
unfolding add_cpus last_found
add_cpus-last [] cpu = (refl, refl)
add_cpus-last (c ∷ cs) cpu =
    let rest = add_cpus-last cs (record cpu {
      model = maybe c.model cpu.model (λ m. m);
      count = maybe c.count cpu.count (λ n. n);
    }) in
    (
      rest.0 ∙ chosen (last_found (λ c. c.model) cs) c.model cpu.model,
      rest.1 ∙ chosen (last_found (λ c. c.count) cs) c.count cpu.count,
    )
  where
    chosen :
        {A : Type 0} (later own : Option A) (a : A)
        → maybe later (maybe own a (λ x. x)) (λ x. x) ≡ maybe (maybe later own some) a (λ x. x)
    chosen none own a = refl
    chosen (some b) own a = refl

abbrev pub bytes_of : SkuStorage → ℤ
bytes_of stor = pos (maybe stor.capacity_mb 0 (λ mb. mb * 1_000_000))

disks_of-bytes :
    (storage : List SkuStorage)
    → AreWords storage
    → map (λ d. d.size_bytes) (map disk_of storage) ≡ map bytes_of storage
disks_of-bytes [] h = refl
disks_of-bytes (stor ∷ storage) h =
    rw (disk_of-HasBytes stor h.0) (ap (λ bs. bytes_of stor ∷ bs) (disks_of-bytes storage h.1))

total_memory :
    (mems : List SkuMemory) → Fits mems → add_memory (pos 0) mems ≡ pos (total_mebibytes mems)
unfolding Fits
total_memory mems f = add_memory-exact mems 0 f.0 (omega (arith, f.1)) ∙ ap pos (omega arith)

-- For a SKU with components whose memory sizes in bytes, and the sum in mebibytes, are below 2^63,
-- and whose disks have 32-bit capacities, no arithmetic wraps: the hardware details have the sum
-- over the entries of the memory of each in whole mebibytes, the bytes of each disk in order, and
-- of the CPUs the last model and the last count.
pub build_hardware_details-parts :
    (m : NicoMachine) (sku : Sku) (parts : SkuComponents)
    → sku.components ≡ some parts
    → Fits parts.memory
    → AreWords parts.storage
    → let hd = build_hardware_details m (some sku) in
      (hd.ram_mebibytes ≡ pos (total_mebibytes parts.memory))
      × (map (λ d. d.size_bytes) hd.storage ≡ map bytes_of parts.storage)
      × (hd.cpu.model ≡ maybe (last_found (λ c. c.model) parts.cpus) "" (λ s. s))
      × (hd.cpu.count ≡ maybe (last_found (λ c. c.count) parts.cpus) 0 (λ n. n))
unfolding build_hardware_details add_components
build_hardware_details-parts m sku parts e f w =
    let cpu =
      add_cpus-last parts.cpus
        (record { arch = deref_str m.controller_machine_type; model = ""; count = 0 }) in
    rw e (total_memory parts.memory f, disks_of-bytes parts.storage w, cpu.0, cpu.1)
