-- ===== src/Command/Mmap.antt =====
-- command.cpp: what Mmap prints, and when it ends.
use seccamp_os.Base.{
  ℕ, zero, suc, ◌+◌, ◌*◌, ◌^◌, ◌≤◌, ◌<◌, ◌≡◌, refl, sym, ap, ◌∙◌, arith, true, List, [], ◌∷◌,
  append-nil, Memory, u64, ltb, lt→ltb, le→ltb,
}
use seccamp_os.Command.{MemoryMap, Descriptor, mmap_from, mmap}
use seccamp_os.Command.Effects.{Printed, Machine, Outcome}
use seccamp_os.Command.Echo.{printing, printing-append}

next_multiple : (k d : ℕ) → (k + 1) * d ≡ k * d + d
next_multiple k d = grind arith

split_sum : (k count d : ℕ) → (k + suc count) * d ≡ k * d + d + count * d
split_sum k count d = grind arith

module _ (efi : Descriptor) (param : MemoryMap) where
  -- The lines for `count` entries of the memory map from entry `k` on.
  abbrev pub entries : Memory → ℕ → ℕ → List Printed
  entries m k zero = []
  entries m k (suc count) =
      let desc = u64 (param.memory_map + k * param.memory_descriptor_size) in
      Printed.pages_line (efi.physical_start m desc) (efi.number_of_pages m desc)
      ∷ entries m (k + 1) count

  module _ {S : Type 0} where
    mmap_from_lem :
        (fuel k count : ℕ) (w : Machine S)
        → param.memory_map_size + param.memory_descriptor_size ≤ 2 ^ 64
        → param.memory_map_size ≤ (k + count) * param.memory_descriptor_size
        → (k + count) * param.memory_descriptor_size
          < param.memory_map_size + param.memory_descriptor_size
        → count < fuel
        → mmap_from efi param fuel (k * param.memory_descriptor_size) w
          ≡ Outcome.done (tt, printing (entries w.memory k count) w)
    unfolding mmap_from
    mmap_from_lem zero k count w fits low high enough = absurd (omega arith)
    mmap_from_lem (suc fuel) k zero w fits low high enough =
        let same : k + 0 ≡ k = omega arith in
        rw (le→ltb (k * param.memory_descriptor_size) param.memory_map_size (rw same at low))
          (ap (λ t. Outcome.done (tt, record w { printed = t })) (sym (append-nil w.printed)))
    mmap_from_lem (suc fuel) k (suc count) w fits low high enough =
        let d = param.memory_descriptor_size in
        let parts : (k + suc count) * d ≡ k * d + d + count * d = split_sum k count d in
        let same : k + suc count ≡ k + 1 + count = omega arith in
        let before : ltb (k * d) param.memory_map_size ≡ true =
          lt→ltb (k * d) param.memory_map_size (omega arith) in
        let next : u64 (k * d + d) ≡ (k + 1) * d = omega (arith, next_multiple k d) in
        let line =
          Printed.pages_line (efi.physical_start w.memory (u64 (param.memory_map + k * d)))
            (efi.number_of_pages w.memory (u64 (param.memory_map + k * d))) in
        rw (before, next)
          (mmap_from_lem fuel (k + 1) count (printing (line ∷ []) w) fits (rw same at low)
              (rw same at high) (omega arith)
            ∙ ap (λ t. Outcome.done (tt, t))
                (printing-append (line ∷ []) (entries w.memory (k + 1) count) w))

    -- If the size of the memory map and one descriptor fit 64 bits together, and `count`
    -- descriptors are the fewest that reach the size, `Mmap` ends with fuel above `count` and
    -- prints the start and the pages of the descriptors 0 to `count - 1`, one descriptor size
    -- after another.
    pub mmap_lem :
        (fuel argc count : ℕ) (argv : List (List ℕ)) (w : Machine S)
        → param.memory_map_size + param.memory_descriptor_size ≤ 2 ^ 64
        → param.memory_map_size ≤ count * param.memory_descriptor_size
        → count * param.memory_descriptor_size
          < param.memory_map_size + param.memory_descriptor_size
        → count < fuel
        → mmap efi param fuel argc argv w ≡ Outcome.done (tt, printing (entries w.memory 0 count) w)
    unfolding mmap
    mmap_lem fuel argc count argv w fits low high enough =
        let start : 0 * param.memory_descriptor_size ≡ 0 = omega arith in
        let same : 0 + count ≡ count = omega arith in
        rw start at (mmap_from_lem fuel 0 count w fits (rw same low) (rw same high) enough)

    -- With a descriptor size of 0 and a map that is not empty, `Mmap` does not end with any fuel.
    pub mmap_forever :
        (fuel argc : ℕ) (argv : List (List ℕ)) (w : Machine S)
        → param.memory_descriptor_size ≡ 0
        → 0 < param.memory_map_size
        → mmap efi param fuel argc argv w ≡ Outcome.out_of_fuel
    unfolding mmap mmap_from
    mmap_forever zero argc argv w stuck some_bytes = refl
    mmap_forever (suc fuel) argc argv w stuck some_bytes =
        let again : u64 (0 + param.memory_descriptor_size) ≡ 0 = omega arith in
        rw (lt→ltb 0 param.memory_map_size some_bytes, again)
          (mmap_forever fuel argc argv _ stuck some_bytes)
