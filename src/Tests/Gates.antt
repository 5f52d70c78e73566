-- ===== src/Tests/Gates.antt =====
-- desctable.cpp, at a memory of counting bytes.
use seccamp_os.Base.{◌≡◌, inl, arith, Memory, read8}
use seccamp_os.ErrorCode.{success, index_out_of_range}
use seccamp_os.DescTable.{DescriptorTableRegister, make_idt_attr, set_idt_entry}
use seccamp_os.DescTable.Print.{decode_gate}
use seccamp_os.DescTable.Gates.{set_idt_entry-decode_gate}
use seccamp_os.DescTable.Bounds.{set_idt_entry_bounds}

-- The byte at each address is the address, cut to 8 bits.
abbrev counting : Memory
counting = λ a. a

-- A table of 0x30 gates.
abbrev idtr : DescriptorTableRegister
idtr = record { limit = 0x2ff; base = 0x10000 }

set_idt_entry-decode_gate_example :
    let (e, m') = set_idt_entry idtr 0x21 0x123456789abcdef0 (make_idt_attr 1 0 14 0) 8 counting in
    (e ≡ success)
    × (decode_gate m' 0x10210 ≡ record {
      selector = 8;
      offset = 0x123456789abcdef0;
      attr_p = 1;
      attr_dpl = 0;
      attr_d = 1;
      attr_type = 14;
      attr_ist = 0;
    })
set_idt_entry-decode_gate_example =
    set_idt_entry-decode_gate idtr 0x21 0x123456789abcdef0 1 0 14 0 8 counting (omega arith)
      (omega arith) (omega arith) (omega arith) (omega arith) (omega arith) (omega arith)
      (omega arith)

-- Index 0x30 is the first that is refused.
set_idt_entry_bounds_example :
    let (e, m') = set_idt_entry idtr 0x30 0x1000 0x8e00 8 counting in
    (e ≡ index_out_of_range) × (read8 m' 0x10300 ≡ read8 counting 0x10300)
set_idt_entry_bounds_example =
    set_idt_entry_bounds idtr 0x30 0x1000 0x8e00 8 0x10300 counting (omega arith) (omega arith)
      (inl (omega arith))
