-- ===== src/Pci/Device/Bars.antt =====
-- pci.cpp: `CalcBarMapSize` against a base address register as the PCI specification has it.
use seccamp_os.Base.{
  ℕ, ◌+◌, ◌-◌, ◌*◌, ◌/◌, ◌%◌, ◌^◌, ◌<◌, ◌≤◌, ◌≡◌, refl, sym, ap, ◌∙◌, arith, false, bit_and,
  bit_and-field, ◌==◌, ==_refl, ==_iff, Bool-cases, leb, if◌then◌else◌, u32, inl, inr,
}
use seccamp_os.ErrorCode.{success, is_error}
use seccamp_os.Ports.{Ports}
use seccamp_os.Pci.Device.Masks.{ones_above, size_of_mask_lem, flags_kept}
use seccamp_os.Pci.{make_address}
use seccamp_os.Pci.Laws.{Mechanism, read_data-value, reg-read_data, reg-write_data}
use seccamp_os.Pci.Device.{
  Device, calc_bar_address, read_conf_reg, write_conf_reg, read_bar, write_bar32, write_bar,
  calc_bar_map_size,
}

-- The PCI specification of a 32-bit base address register of `2 ^ k` bytes: of what is written
-- the bits from `k` on are kept, the four lowest are fixed and do not announce 64 bits, and the
-- value held at first is one that can be written.
pub record IsBar32 (io : Ports) (m : Mechanism io) (a k : ℕ) (s : io.State) : Type 0 where
  pub flags : ℕ
  pub flags_fit : flags < 16
  pub is_32bits : flags / 4 % 2 ≡ 0
  pub value_fits : m.reg s a < 2 ^ 32
  pub stored_bits : (v : ℕ) → v < 2 ^ 32 → m.stored a v ≡ v / 2 ^ k * 2 ^ k + flags
  pub stable : m.stored a (m.reg s a) ≡ m.reg s a

module _ (io : Ports) (m : Mechanism io) (device : Device) (bar_index : ℕ)
    (index_fits : bar_index < 6) where
  abbrev bar_at : ℕ
  bar_at = make_address device.bus device.dev device.func (calc_bar_address bar_index)

  within : leb 6 bar_index ≡ false
  within = ground arith

  pub read_bar-32 :
      (s : io.State)
      → m.reg s bar_at / 4 % 2 ≡ 0
      → ((read_bar io device bar_index s).0 ≡ record { value = m.reg s bar_at; error = success })
        × ((b : ℕ) → m.reg (read_bar io device bar_index s).1 b ≡ m.reg s b)
  unfolding read_bar read_conf_reg
  read_bar-32 s bits =
      let low : bit_and (m.reg s bar_at) 4 ≡ 0 = bit_and-field 1 2 (m.reg s bar_at) ∙ omega arith in
      rw (within, read_data-value io m bar_at s, low) (refl, λ b. reg-read_data io m bar_at b s)

  reg-write_bar :
      (v b : ℕ) (s : io.State)
      → m.reg (write_bar io device false bar_index v s).1 b
        ≡ (if b == bar_at then m.stored b (u32 v) else m.reg s b)
  unfolding write_bar write_bar32 write_conf_reg
  reg-write_bar v b s = rw within (reg-write_data io m bar_at (u32 v) b s)

  calc_bar_map_size-32 :
      (k : ℕ) (s : io.State)
      → 4 ≤ k
      → k < 32
      → (spec : IsBar32 io m bar_at k s)
      → ((calc_bar_map_size io device bar_index s).0 ≡ record { value = 2 ^ k; error = success })
        × ((b : ℕ) → m.reg (calc_bar_map_size io device bar_index s).1 b ≡ m.reg s b)
  unfolding calc_bar_map_size is_error
  calc_bar_map_size-32 k s low_end high_end spec =
      let held = m.reg s bar_at in
      let same : held ≡ held / 2 ^ k * 2 ^ k + spec.flags =
        sym spec.stable ∙ spec.stored_bits held spec.value_fits in
      let bits : held / 4 % 2 ≡ 0 =
        ap (λ t. t / 4 % 2) same
        ∙ flags_kept k (held / 2 ^ k) spec.flags low_end spec.flags_fit
        ∙ spec.is_32bits in
      let low : bit_and held 4 ≡ 0 = bit_and-field 1 2 held ∙ omega arith in
      let (e₁, h₁) = read_bar-32 s bits in
      let s₂ =
        (write_bar io device false bar_index (2 ^ 64 - 1) (read_bar io device bar_index s).1).1 in
      let ones : m.reg s₂ bar_at ≡ (2 ^ 32 - 1) / 2 ^ k * 2 ^ k + spec.flags =
        reg-write_bar (2 ^ 64 - 1) bar_at _
        ∙ rw (==_refl bar_at) (spec.stored_bits (2 ^ 32 - 1) (omega arith)) in
      let bits₂ : m.reg s₂ bar_at / 4 % 2 ≡ 0 =
        ap (λ t. t / 4 % 2) ones
        ∙ flags_kept k ((2 ^ 32 - 1) / 2 ^ k) spec.flags low_end spec.flags_fit
        ∙ spec.is_32bits in
      let (e₂, h₂) = read_bar-32 s₂ bits₂ in
      let fits : u32 held ≡ held = let bound = spec.value_fits in omega arith in
      rw (e₁, low, e₂, ones, ones_above 32 k (omega arith))
        (
          size_of_mask_lem 32 k spec.flags low_end high_end (omega arith) spec.flags_fit,
          λ b. reg-write_bar held b _ ∙ elim (Bool-cases (b == bar_at)) [
            | inl here ↦
                let at_bar : b ≡ bar_at = (==_iff b bar_at).0 here in
                rw here (rw at_bar (rw fits spec.stable))
            | inr away ↦ rw away (h₂ b ∙ reg-write_bar (2 ^ 64 - 1) b _ ∙ rw away (h₁ b))
          ],
        )

-- Over ports that follow the PCI configuration mechanism and for one of the six base address
-- registers that is a 32-bit register of `2 ^ k` bytes, from 16 bytes to 2 GiB, `CalcBarMapSize`
-- returns `2 ^ k` with success, and every configuration register ends as it was.
pub calc_bar_map_size_lem :
    (io : Ports) (m : Mechanism io) (device : Device) (bar_index k : ℕ) (s : io.State)
    → bar_index < 6
    → 4 ≤ k
    → k < 32
    → IsBar32 io m (make_address device.bus device.dev device.func (calc_bar_address bar_index)) k s
    → ((calc_bar_map_size io device bar_index s).0 ≡ record { value = 2 ^ k; error = success })
      × ((b : ℕ) → m.reg (calc_bar_map_size io device bar_index s).1 b ≡ m.reg s b)
calc_bar_map_size_lem io m device bar_index k s fits low high spec =
    calc_bar_map_size-32 io m device bar_index fits k s low high spec
