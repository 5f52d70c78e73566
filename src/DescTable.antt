-- ===== src/DescTable.antt =====
-- desctable.hpp, desctable.cpp: the descriptor table registers, and writing a gate into the IDT;
-- and the decoding of gates and segments in `print_desc_table` of main.cpp.
pub mod Print
pub mod Gates
pub mod Bounds
use seccamp_os.Base.{
  ℕ, ◌+◌, ◌*◌, ◌/◌, ◌%◌, ◌^◌, bit_and, bit_or, Memory, write32, ltb, if◌then◌else◌, ◌<<<◌, ◌>>>◌,
  u16, u32, u64,
}
use seccamp_os.ErrorCode.{Error, success, index_out_of_range}
use seccamp_os.Bitutil.{read_by_byte}

pub record DescriptorTableRegister : Type 0 where
  pub limit : ℕ  -- uint16_t
  pub base : ℕ  -- uint64_t

unfoldable pub make_dtr : Memory → ℕ → DescriptorTableRegister
make_dtr m dtr = record { limit = read_by_byte 2 m dtr; base = read_by_byte 8 m (dtr + 2) }

abbrev pub dtr_buf_size : ℕ
dtr_buf_size = 2 + 8

-- `GetGDTR` and `GetIDTR`: `sgdt` and `sidt` store ten bytes into a local buffer.
unfoldable pub get_gdtr : (Memory → ℕ → Memory) → Memory → ℕ → DescriptorTableRegister
get_gdtr sgdt m gdtr = make_dtr (sgdt m gdtr) gdtr

unfoldable pub get_idtr : (Memory → ℕ → Memory) → Memory → ℕ → DescriptorTableRegister
get_idtr sidt m idtr = make_dtr (sidt m idtr) idtr

unfoldable pub make_idt_attr : ℕ → ℕ → ℕ → ℕ → ℕ
make_idt_attr p dpl type ist =
    u16 (bit_or (bit_or (bit_or (p <<< 15) (dpl <<< 13)) (type <<< 8)) ist)

-- The address of the entry: `reinterpret_cast<uint32_t*>(idtr.base) + 4 * index`.
abbrev pub entry_addr : DescriptorTableRegister → ℕ → ℕ
entry_addr idtr index = u64 (idtr.base + 4 * (4 * index))

unfoldable pub set_idt_entry : DescriptorTableRegister → ℕ → ℕ → ℕ → ℕ → Memory → Error × Memory
set_idt_entry idtr index offset attr selector m =
    let p = entry_addr idtr index in
    if ltb idtr.limit (u64 (16 * index + 15)) then (index_out_of_range, m) else (
      success,
      write32
          (write32 (write32 m p (u32 (bit_or (u32 (selector <<< 16)) (bit_and offset 0xffff))))
            (p + 4) (u32 (bit_or (bit_and offset 0xffff0000) attr)))
          (p + 8) (u32 (offset >>> 32)),
    )
