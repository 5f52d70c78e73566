-- ===== src/DescTable/Bounds.antt =====
-- What `SetIDTEntry` touches.
use seccamp_os.Base.{
  ℕ, ◌+◌, ◌*◌, ◌^◌, ◌<◌, ◌≤◌, ◌≡◌, ◌⊎◌, inl, inr, refl, arith, Memory, read8, write32,
  read8-write32_away, ltb, Bool-cases, if◌then◌else◌, u64,
}
use seccamp_os.ErrorCode.{success, index_out_of_range}
use seccamp_os.DescTable.{DescriptorTableRegister, set_idt_entry, entry_addr}

-- Three dwords written one behind another leave the bytes around them alone.
read8-three_dwords_away :
    (m : Memory) (p a b c q : ℕ)
    → (q < p) ⊎ (p + 12 ≤ q)
    → read8 (write32 (write32 (write32 m p a) (p + 4) b) (p + 8) c) q ≡ read8 m q
read8-three_dwords_away m p a b c q h = ground (
  arith,
  read8-write32_away (write32 (write32 m p a) (p + 4) b) (p + 8) c q,
  read8-write32_away (write32 m p a) (p + 4) b q,
  read8-write32_away m p a q,
)

-- For an index below 2 ^ 60, where `16 * index + 15` does not wrap, and a table that ends below 2
-- ^ 64: `SetIDTEntry` refuses the index if the 16 bytes of the entry do not lie within the limit,
-- and else accepts it; no byte is changed when it is refused, and none outside the first 12 bytes
-- of the entry when it is accepted.
pub set_idt_entry_bounds :
    (idtr : DescriptorTableRegister) (index offset attr selector b : ℕ) (m : Memory)
    → index < 2 ^ 60
    → idtr.base + idtr.limit < 2 ^ 64
    → (idtr.limit < 16 * index + 15)
      ⊎ ((b < idtr.base + 16 * index) ⊎ (idtr.base + 16 * index + 12 ≤ b))
    → let (e, m') = set_idt_entry idtr index offset attr selector m in
      (e ≡ (if ltb idtr.limit (16 * index + 15) then index_out_of_range else success))
      × (read8 m' b ≡ read8 m b)
unfolding set_idt_entry
set_idt_entry_bounds idtr index offset attr selector b m hx hb away =
    let whole : u64 (16 * index + 15) ≡ 16 * index + 15 = omega arith in
    elim (Bool-cases (ltb idtr.limit (16 * index + 15))) [
      | inl over ↦ rw (whole, over) (refl, refl)
      | inr within ↦
          rw (whole, within)
            (refl, read8-three_dwords_away m (entry_addr idtr index) _ _ _ b (ground arith))
    ]
