-- ===== src/DescTable/Print.antt =====
-- main.cpp, `print_desc_table`: what it reads out of a descriptor.
use seccamp_os.Base.{
  ℕ, zero, suc, ◌+◌, ◌^◌, bit_and, bit_or, Memory, read32, leb, ltb, ◌!=◌, ◌&&◌, if◌then◌else◌,
  ◌<<<◌, ◌>>>◌, u16, u8, u32, u64, List, [], ◌∷◌,
}
use seccamp_os.DescTable.{DescriptorTableRegister}

-- The variables of the first loop, for one descriptor of the GDT.
pub record Segment : Type 0 where
  pub base : ℕ
  pub limit : ℕ
  pub attr_g : ℕ
  pub attr_db : ℕ
  pub attr_l : ℕ
  pub attr_avl : ℕ
  pub attr_p : ℕ
  pub attr_dpl : ℕ
  pub attr_s : ℕ
  pub attr_type : ℕ

-- From the two dwords `p[0]` and `p[1]`.
unfoldable pub decode_segment : ℕ → ℕ → Segment
decode_segment p0 p1 = record {
  base = bit_or (bit_or (bit_and p1 0xff000000) (u32 (bit_and p1 0xff <<< 16))) (p0 >>> 16);
  limit = bit_or (bit_and p1 0x000f0000) (bit_and p0 0x0000ffff);
  attr_g = u8 (bit_and (p1 >>> 23) 1);
  attr_db = u8 (bit_and (p1 >>> 22) 1);
  attr_l = u8 (bit_and (p1 >>> 21) 1);
  attr_avl = u8 (bit_and (p1 >>> 20) 1);
  attr_p = u8 (bit_and (p1 >>> 15) 1);
  attr_dpl = u8 (bit_and (p1 >>> 13) 3);
  attr_s = u8 (bit_and (p1 >>> 12) 1);
  attr_type = u8 (bit_and (p1 >>> 8) 15);
}

-- The variables of the second loop, for one gate of the IDT.
pub record Gate : Type 0 where
  pub selector : ℕ
  pub offset : ℕ
  pub attr_p : ℕ
  pub attr_dpl : ℕ
  pub attr_d : ℕ
  pub attr_type : ℕ
  pub attr_ist : ℕ

-- From the dwords at `p`.
unfoldable pub decode_gate : Memory → ℕ → Gate
decode_gate m p =
    let p0 = read32 m p in
    let p1 = read32 m (p + 4) in
    let p2 = read32 m (p + 8) in
    record {
      selector = u16 (p0 >>> 16);
      offset = bit_or (bit_or (u64 (p2 <<< 32)) (bit_and p1 0xffff0000)) (bit_and p0 0x0000ffff);
      attr_p = u8 (bit_and (p1 >>> 15) 1);
      attr_dpl = u8 (bit_and (p1 >>> 13) 3);
      attr_d = u8 (bit_and (p1 >>> 11) 1);
      attr_type = u8 (bit_and (p1 >>> 8) 0x1f);
      attr_ist = u8 (bit_and p1 7);
    }

-- The segments that the first loop prints, from index `i` on; `rounds` is above the number of
-- those left.
print_segments : ℕ → Memory → DescriptorTableRegister → ℕ → List Segment
print_segments zero m gdtr i = []
print_segments (suc rounds) m gdtr i =
    let p = u64 (gdtr.base + (i <<< 3)) in
    let rest = print_segments rounds m gdtr (i + 1) in
    if leb i (gdtr.limit >>> 3) then decode_segment (read32 m p) (read32 m (p + 4)) ∷ rest else []

-- A line of the second loop.
pub data Line : Type 0 where
  not_a_gate : (index : ℕ) → Line
  gate : (index : ℕ) → Gate → Line

-- The lines of the second loop from index `i` on.
print_gates : ℕ → Memory → DescriptorTableRegister → ℕ → List Line
print_gates zero m idtr i = []
print_gates (suc rounds) m idtr i =
    let p = u64 (idtr.base + (i <<< 4)) in
    let g = decode_gate m p in
    let rest = print_gates rounds m idtr (i + 1) in
    if leb i (idtr.limit >>> 4) && ltb i 0x30
    then if (g.attr_type != 15) && (g.attr_type != 14)
      then Line.not_a_gate i ∷ []
      else Line.gate i g ∷ rest
    else []

-- `limit` has 16 bits, so there are at most 2 ^ 13 segments; the gates are those from 0x20 to 0x2f.
unfoldable pub print_desc_table :
    Memory → DescriptorTableRegister → DescriptorTableRegister → List Segment × List Line
unfolding print_segments print_gates
print_desc_table m gdtr idtr = (print_segments (2 ^ 13) m gdtr 0, print_gates 0x10 m idtr 0x20)
