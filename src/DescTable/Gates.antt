-- ===== src/DescTable/Gates.antt =====
-- What `SetIDTEntry` writes, `print_desc_table` reads back.
use seccamp_os.Base.{
  ℕ, ◌+◌, ◌*◌, ◌/◌, ◌%◌, ◌^◌, ◌<◌, ◌≤◌, ◌≡◌, inl, refl, arith, ◌∙◌, ap, bit_and, bit_or, Memory,
  read32, write32, read32-write32, read32-write32_away, read32-lt, bit_and-low, bit_and-field,
  bit_or-add, ltb, false, u16, u32, u64,
}
use seccamp_os.ErrorCode.{success}
use seccamp_os.DescTable.{DescriptorTableRegister, make_idt_attr, entry_addr, set_idt_entry}
use seccamp_os.DescTable.Print.{Gate, decode_gate}

-- The attribute word as a sum of its fields.
attr_as_sum :
    (p dpl type ist : ℕ)
    → p < 2
    → dpl < 4
    → type < 32
    → ist < 256
    → make_idt_attr p dpl type ist ≡ p * 2 ^ 15 + dpl * 2 ^ 13 + type * 2 ^ 8 + ist
unfolding make_idt_attr
attr_as_sum p dpl type ist hp hd ht hi =
    rw
      (
        bit_or-add 15 (p * 2 ^ 15) (dpl * 2 ^ 13) (omega arith) (omega arith),
        bit_or-add 13 (p * 2 ^ 15 + dpl * 2 ^ 13) (type * 2 ^ 8) (omega arith) (omega arith),
        bit_or-add 8 (p * 2 ^ 15 + dpl * 2 ^ 13 + type * 2 ^ 8) ist (omega arith) (omega arith),
      )
      (omega arith)

-- The three dwords of an entry.
abbrev dword0 : ℕ → ℕ → ℕ
dword0 offset selector = u32 (bit_or (u32 (selector * 2 ^ 16)) (bit_and offset 0xffff))

abbrev dword1 : ℕ → ℕ → ℕ
dword1 offset attr = u32 (bit_or (bit_and offset 0xffff0000) attr)

module _ (offset attr selector : ℕ) (attr_fits : attr < 2 ^ 16)
    (selector_fits : selector < 2 ^ 16) where
  dword0_as_sum : dword0 offset selector ≡ selector * 2 ^ 16 + offset % 2 ^ 16
  dword0_as_sum =
      rw
        (
          bit_and-low 16 offset,
          bit_or-add 16 (u32 (selector * 2 ^ 16)) (offset % 2 ^ 16) (omega arith) (omega arith),
        )
        (omega arith)

  dword1_as_sum : dword1 offset attr ≡ offset / 2 ^ 16 % 2 ^ 16 * 2 ^ 16 + attr
  dword1_as_sum =
      rw
        (
          bit_and-field 16 16 offset,
          bit_or-add 16 (offset / 2 ^ 16 % 2 ^ 16 * 2 ^ 16) attr (omega arith) attr_fits,
        )
        (omega arith)

-- A gate from the values of its three dwords.
abbrev gate_of : ℕ → ℕ → ℕ → Gate
gate_of p0 p1 p2 = record {
  selector = u16 (p0 / 2 ^ 16);
  offset = p2 * 2 ^ 32 + p1 / 2 ^ 16 * 2 ^ 16 + p0 % 2 ^ 16;
  attr_p = p1 / 2 ^ 15 % 2;
  attr_dpl = p1 / 2 ^ 13 % 4;
  attr_d = p1 / 2 ^ 11 % 2;
  attr_type = p1 / 2 ^ 8 % 32;
  attr_ist = p1 % 8;
}

decode_gate-eq :
    (m : Memory) (p : ℕ)
    → decode_gate m p ≡ gate_of (read32 m p) (read32 m (p + 4)) (read32 m (p + 8))
unfolding decode_gate
decode_gate-eq m p =
    let h0 = read32-lt m p in
    let h1 = read32-lt m (p + 4) in
    let h2 = read32-lt m (p + 8) in
    rw
      (
        bit_and-low 1 (read32 m (p + 4) / 2 ^ 15),
        bit_and-low 2 (read32 m (p + 4) / 2 ^ 13),
        bit_and-low 1 (read32 m (p + 4) / 2 ^ 11),
        bit_and-low 5 (read32 m (p + 4) / 2 ^ 8),
        bit_and-low 3 (read32 m (p + 4)),
        bit_and-low 16 (read32 m p),
        bit_and-field 16 16 (read32 m (p + 4)),
        bit_or-add 32 (u64 (read32 m (p + 8) * 2 ^ 32))
            (read32 m (p + 4) / 2 ^ 16 % 2 ^ 16 * 2 ^ 16) (omega arith) (omega arith),
        bit_or-add 16
            (u64 (read32 m (p + 8) * 2 ^ 32) + read32 m (p + 4) / 2 ^ 16 % 2 ^ 16 * 2 ^ 16)
            (read32 m p % 2 ^ 16) (omega arith) (omega arith),
      )
      (ground arith)

-- The dwords in memory after three dwords are written one behind another.
three_dwords :
    (m : Memory) (p a b c : ℕ)
    → let m' = write32 (write32 (write32 m p a) (p + 4) b) (p + 8) c in
      (read32 m' p ≡ a % 2 ^ 32)
      × (read32 m' (p + 4) ≡ b % 2 ^ 32)
      × (read32 m' (p + 8) ≡ c % 2 ^ 32)
three_dwords m p a b c = (
  read32-write32_away second (p + 8) c p (inl (omega arith))
      ∙ read32-write32_away first (p + 4) b p (inl (omega arith))
      ∙ read32-write32 m p a,
  read32-write32_away second (p + 8) c (p + 4) (inl (omega arith)) ∙ read32-write32 first (p + 4) b,
  read32-write32 second (p + 8) c,
)
  where
    first : Memory
    first = write32 m p a

    second : Memory
    second = write32 first (p + 4) b

-- The memory that `SetIDTEntry` leaves.
abbrev pub entry_written : Memory → ℕ → ℕ → ℕ → ℕ → Memory
entry_written m p offset attr selector =
    write32 (write32 (write32 m p (dword0 offset selector)) (p + 4) (dword1 offset attr)) (p + 8)
      (u32 (offset / 2 ^ 32))

abbrev gate_with : ℕ → ℕ → ℕ → Gate
gate_with selector offset attr = record {
  selector = selector;
  offset = offset;
  attr_p = attr / 2 ^ 15;
  attr_dpl = attr / 2 ^ 13 % 4;
  attr_d = attr / 2 ^ 11 % 2;
  attr_type = attr / 2 ^ 8 % 32;
  attr_ist = attr % 8;
}

decode_written :
    (m : Memory) (p offset attr selector : ℕ)
    → offset < 2 ^ 64
    → attr < 2 ^ 16
    → selector < 2 ^ 16
    → decode_gate (entry_written m p offset attr selector) p ≡ gate_with selector offset attr
decode_written m p offset attr selector ho ha hs =
    let (r0, r1, r2) =
      three_dwords m p (dword0 offset selector) (dword1 offset attr) (u32 (offset / 2 ^ 32)) in
    decode_gate-eq (entry_written m p offset attr selector) p
    ∙ rw
        (
          r0,
          r1,
          r2,
          dword0_as_sum offset attr selector ha hs,
          dword1_as_sum offset attr selector ha hs,
        )
        (ground arith)

-- For an entry within a limit of 16 bits and fields that fit their widths, `SetIDTEntry` with an
-- attribute word from `MakeIDTAttr` succeeds, and `print_desc_table` then reads back the same
-- selector, offset, presence, privilege, type and stack table index from that entry.
pub set_idt_entry-decode_gate :
    (idtr : DescriptorTableRegister) (index offset p dpl type ist selector : ℕ) (m : Memory)
    → idtr.limit < 2 ^ 16
    → 16 * index + 15 ≤ idtr.limit
    → offset < 2 ^ 64
    → selector < 2 ^ 16
    → p < 2
    → dpl < 4
    → type < 32
    → ist < 8
    → let (e, m') = set_idt_entry idtr index offset (make_idt_attr p dpl type ist) selector m in
      (e ≡ success)
      × (decode_gate m' (u64 (idtr.base + index * 2 ^ 4)) ≡ record {
        selector = selector;
        offset = offset;
        attr_p = p;
        attr_dpl = dpl;
        attr_d = type / 2 ^ 3 % 2;
        attr_type = type;
        attr_ist = ist;
      })
unfolding set_idt_entry
set_idt_entry-decode_gate idtr index offset p dpl type ist selector m hl hx ho hs hp hd ht hi =
    rw accepted (refl, gate)
  where
    accepted : ltb idtr.limit (u64 (16 * index + 15)) ≡ false
    accepted = ground arith

    gate :
        decode_gate
          (entry_written m (entry_addr idtr index) offset (make_idt_attr p dpl type ist) selector)
          (u64 (idtr.base + index * 2 ^ 4))
        ≡ record {
          selector = selector;
          offset = offset;
          attr_p = p;
          attr_dpl = dpl;
          attr_d = type / 2 ^ 3 % 2;
          attr_type = type;
          attr_ist = ist;
        }
    gate =
        let same : u64 (idtr.base + index * 2 ^ 4) ≡ entry_addr idtr index = ap u64 (omega arith) in
        let sum = attr_as_sum p dpl type ist hp hd ht (omega arith) in
        rw same (
          decode_written m (entry_addr idtr index) offset (make_idt_attr p dpl type ist) selector ho
            (omega (arith, sum)) hs
          ∙ rw sum (ground arith))
