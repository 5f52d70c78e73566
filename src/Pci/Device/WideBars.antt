-- ===== src/Pci/Device/WideBars.antt =====
-- pci.cpp: `CalcBarMapSize` against a 64-bit base address register, and its errors.
use seccamp_os.Base.{
  ℕ, ◌+◌, ◌-◌, ◌*◌, ◌/◌, ◌%◌, ◌^◌, ◌<◌, ◌≤◌, ◌≡◌, ◌≢◌, refl, sym, ap, ◌∙◌, arith, true, false,
  bit_and, bit_or-add_low, bit_and-field, bit_and-low, ◌==◌, ==_refl, ==_ne, ==_iff, Bool-cases,
  leb, if◌then◌else◌, u8, u32, u64, ◌⊎◌, inl, inr,
}
use seccamp_os.ErrorCode.{WithError, success, index_out_of_range, is_error}
use seccamp_os.Ports.{Ports}
use seccamp_os.Pci.{make_address, read_data}
use seccamp_os.Pci.Laws.{
  Mechanism, read_data-value, reg-read_data, reg-write_data, make_address_injective,
}
use seccamp_os.Pci.Device.{
  Device, calc_bar_address, read_conf_reg, write_conf_reg, read_bar, write_bar64, write_bar,
  calc_bar_map_size,
}
use seccamp_os.Pci.Device.Masks.{size_of_mask_lem, flags_kept, multiple_fits, halves}

-- The PCI specification of a 64-bit base address register of `2 ^ k` bytes, in two registers: of
-- what is written the bits from `k` on are kept, the four lowest are fixed and announce 64 bits,
-- and the values held at first are some that can be written.
pub record IsBar64 (io : Ports) (m : Mechanism io) (a b k : ℕ) (s : io.State) : Type 0 where
  pub flags : ℕ
  pub flags_fit : flags < 16
  pub is_64bits : flags / 4 % 2 ≡ 1
  pub value_fits : m.reg s a < 2 ^ 32
  pub upper_fits : m.reg s b < 2 ^ 32
  pub stored_bits : (v : ℕ) → v < 2 ^ 32 → m.stored a v ≡ v / 2 ^ k * 2 ^ k + flags
  pub stored_upper : (v : ℕ) → v < 2 ^ 32 → m.stored b v ≡ v / 2 ^ (k - 32) * 2 ^ (k - 32)
  pub stable : m.stored a (m.reg s a) ≡ m.reg s a
  pub stable_upper : m.stored b (m.reg s b) ≡ m.reg s b

-- Two base address registers lie at different addresses.
module _ (device : Device) (in_range : (device.bus < 256) × (device.dev < 32) × (device.func < 8))
    (bar_index : ℕ) (index_fits : bar_index < 5) where
  abbrev lower : ℕ
  lower = make_address device.bus device.dev device.func (calc_bar_address bar_index)

  abbrev upper : ℕ
  upper = make_address device.bus device.dev device.func (u8 (calc_bar_address bar_index + 4))

  apart : upper ≢ lower
  unfolding calc_bar_address
  apart e =
      let (hb, hd, hf) = in_range in
      let (_, _, _, same) =
        make_address_injective device.bus device.dev device.func
          (u8 (calc_bar_address bar_index + 4)) device.bus device.dev device.func
          (calc_bar_address bar_index) (hb, hd, hf, omega arith) (hb, hd, hf, omega arith) e in
      omega arith

  module _ (io : Ports) (m : Mechanism io) where
    within : leb 6 bar_index ≡ false
    within = ground arith

    within_wide : leb 5 bar_index ≡ false
    within_wide = ground arith

    pub read_bar-64 :
        (s : io.State)
        → m.reg s lower < 2 ^ 32
        → m.reg s upper < 2 ^ 32
        → m.reg s lower / 4 % 2 ≡ 1
        → ((read_bar io device bar_index s).0
            ≡ record { value = m.reg s lower + m.reg s upper * 2 ^ 32; error = success })
          × ((b : ℕ) → m.reg (read_bar io device bar_index s).1 b ≡ m.reg s b)
    unfolding read_bar read_conf_reg
    read_bar-64 s fits upper_fits bits =
        let set : (bit_and (m.reg s lower) 4 == 0) ≡ false =
          let e : bit_and (m.reg s lower) 4 ≡ 4 = bit_and-field 1 2 (m.reg s lower) ∙ omega arith in
          rw e refl in
        let small : u64 (m.reg s upper * 2 ^ 32) ≡ m.reg s upper * 2 ^ 32 = omega arith in
        rw
          (
            within,
            read_data-value io m lower s,
            set,
            within_wide,
            read_data-value io m upper (read_data io lower s).1,
            reg-read_data io m lower upper s,
            small,
            bit_or-add_low 32 (m.reg s upper * 2 ^ 32) (m.reg s lower) (omega arith) fits,
          )
          (
            ap (λ (t : ℕ). record { value = t; error = success }) (omega arith),
            λ b. reg-read_data io m upper b _ ∙ reg-read_data io m lower b s,
          )

    reg-write_bar :
        (v b : ℕ) (s : io.State)
        → v < 2 ^ 64
        → m.reg (write_bar io device true bar_index v s).1 b ≡ (
            if b == upper
            then m.stored b (v / 2 ^ 32)
            else (if b == lower then m.stored b (v % 2 ^ 32) else m.reg s b))
    unfolding write_bar write_bar64 write_conf_reg
    reg-write_bar v b s fits =
        let low : u32 (bit_and v 0xffffffff) ≡ v % 2 ^ 32 = rw (bit_and-low 32 v) (omega arith) in
        let high : u32 (bit_and (v / 2 ^ 32) 0xffffffff) ≡ v / 2 ^ 32 =
          rw (bit_and-low 32 (v / 2 ^ 32)) (omega arith) in
        rw (within_wide, low, high)
          (reg-write_data io m upper (v / 2 ^ 32) b _
            ∙ rw (reg-write_data io m lower (v % 2 ^ 32) b s) refl)

    -- A value that such a register holds announces 64 bits.
    announces :
        (k : ℕ) (s : io.State) (spec : IsBar64 io m lower upper k s) (v : ℕ)
        → 4 ≤ k
        → v < 2 ^ 32
        → (m.stored lower v / 4 % 2 ≡ 1) × (m.stored lower v < 2 ^ 32)
    announces k s spec v low fits =
        let below : v / 2 ^ k * 2 ^ k ≤ v = grind arith in
        rw (spec.stored_bits v fits) (
          flags_kept k (v / 2 ^ k) spec.flags low spec.flags_fit ∙ spec.is_64bits,
          multiple_fits k (v / 2 ^ k) spec.flags low spec.flags_fit (omega arith),
        )

    -- Over ports that follow the PCI configuration mechanism, for a device with its numbers in
    -- range and one of its first five base address registers that is, with the next one, a 64-bit
    -- register of `2 ^ k` bytes, from 16 bytes to `2 ^ 63`, `CalcBarMapSize` returns `2 ^ k` with
    -- success, and every configuration register ends as it was.
    pub calc_bar_map_size_wide :
        (k : ℕ) (s : io.State)
        → 4 ≤ k
        → k < 64
        → IsBar64 io m lower upper k s
        → ((calc_bar_map_size io device bar_index s).0 ≡ record { value = 2 ^ k; error = success })
          × ((b : ℕ) → m.reg (calc_bar_map_size io device bar_index s).1 b ≡ m.reg s b)
    unfolding calc_bar_map_size is_error
    calc_bar_map_size_wide k s low high spec =
        let held = m.reg s lower in
        let held_upper = m.reg s upper in
        let value = held + held_upper * 2 ^ 32 in
        let (bits, _) = announces k s spec held low spec.value_fits in
        let (bits₁, fits₁) = announces k s spec (2 ^ 32 - 1) low (omega arith) in
        let announced : held / 4 % 2 ≡ 1 = ap (λ (t : ℕ). t / 4 % 2) (sym spec.stable) ∙ bits in
        let (e₁, h₁) = read_bar-64 s spec.value_fits spec.upper_fits announced in
        let wide : (bit_and value 4 == 0) ≡ false =
          let e : bit_and value 4 ≡ 4 = bit_and-field 1 2 value ∙ omega arith in rw e refl in
        let s₂ =
          (write_bar io device true bar_index (2 ^ 64 - 1) (read_bar io device bar_index s).1).1 in
        let ones : m.reg s₂ lower ≡ m.stored lower (2 ^ 32 - 1) =
          reg-write_bar (2 ^ 64 - 1) lower _ (omega arith)
          ∙ rw (==_ne lower upper (λ e. apart (sym e)), ==_refl lower) refl in
        let ones_upper : m.reg s₂ upper ≡ (2 ^ 32 - 1) / 2 ^ (k - 32) * 2 ^ (k - 32) =
          reg-write_bar (2 ^ 64 - 1) upper _ (omega arith)
          ∙ rw (==_refl upper) (spec.stored_upper (2 ^ 32 - 1) (omega arith)) in
        let upper_fits : m.reg s₂ upper < 2 ^ 32 =
          let below : (2 ^ 32 - 1) / 2 ^ (k - 32) * 2 ^ (k - 32) ≤ 2 ^ 32 - 1 = grind arith in
          rw ones_upper (omega arith) in
        let (e₂, h₂) = read_bar-64 s₂ (rw ones fits₁) upper_fits (rw ones bits₁) in
        let read_back : m.reg s₂ lower + m.reg s₂ upper * 2 ^ 32 ≡ 2 ^ 64 - 2 ^ k + spec.flags =
          rw (ones, ones_upper, spec.stored_bits (2 ^ 32 - 1) (omega arith))
            (halves k spec.flags high) in
        let fits : value < 2 ^ 64 = omega (arith, spec.value_fits, spec.upper_fits) in
        let low_half : value % 2 ^ 32 ≡ held = omega (arith, spec.value_fits) in
        let high_half : value / 2 ^ 32 ≡ held_upper = omega (arith, spec.value_fits) in
        rw (e₁, wide, e₂, read_back)
          (
            size_of_mask_lem 64 k spec.flags low high (omega arith) spec.flags_fit,
            λ b.
                reg-write_bar value b _ fits
                ∙ rw (low_half, high_half)
                    (elim (Bool-cases (b == upper)) [
                      | inl here ↦
                          let at_upper : b ≡ upper = (==_iff b upper).0 here in
                          rw here (rw at_upper spec.stable_upper)
                      | inr away ↦ elim (Bool-cases (b == lower)) [
                        | inl here ↦
                            let at_lower : b ≡ lower = (==_iff b lower).0 here in
                            rw (away, here) (rw at_lower spec.stable)
                        | inr outside ↦
                            rw (away, outside)
                              (h₂ b
                                ∙ reg-write_bar (2 ^ 64 - 1) b _ (omega arith)
                                ∙ rw (away, outside) (h₁ b))
                      ]
                    ]),
          )

-- A base address register that is not there.
abbrev pub no_register : WithError ℕ
no_register = record { value = 0; error = index_out_of_range }

-- Over ports that follow the PCI configuration mechanism, if the index is 6 or more, or is 5 and
-- register 5 announces 64 bits, `CalcBarMapSize` returns 0 with `index_out_of_range`, and every
-- configuration register ends as it was.
pub calc_bar_map_size_errors :
    (io : Ports) (m : Mechanism io) (device : Device) (bar_index : ℕ) (s : io.State)
    → (6 ≤ bar_index)
      ⊎ ((bar_index ≡ 5)
          × (m.reg s (make_address device.bus device.dev device.func (calc_bar_address 5)) / 4 % 2
              ≡ 1))
    → ((calc_bar_map_size io device bar_index s).0 ≡ no_register)
      × ((b : ℕ) → m.reg (calc_bar_map_size io device bar_index s).1 b ≡ m.reg s b)
unfolding calc_bar_map_size is_error read_bar read_conf_reg
calc_bar_map_size_errors io m device bar_index s (inl beyond) =
    let none_there : leb 6 bar_index ≡ true = ground arith in rw none_there (refl, λ b. refl)
calc_bar_map_size_errors io m device bar_index s (inr (last, bits)) =
    let a = make_address device.bus device.dev device.func (calc_bar_address 5) in
    let set : bit_and (m.reg s a) 4 ≡ 4 = bit_and-field 1 2 (m.reg s a) ∙ omega arith in
    rw last (rw (read_data-value io m a s, set) (refl, λ b. reg-read_data io m a b s))
