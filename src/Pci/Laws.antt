-- ===== src/Pci/Laws.antt =====
-- pci.hpp: `MakeAddress`, and reading and writing configuration registers through the two ports.
use seccamp_os.Base.{
  ℕ, ◌+◌, ◌*◌, ◌/◌, ◌%◌, ◌^◌, ◌<◌, ◌≡◌, refl, sym, ◌∙◌, arith, bit_or-add, bit_and-field, ◌==◌,
  if◌then◌else◌, u32,
}
use seccamp_os.Ports.{Ports}
use seccamp_os.Pci.{
  make_address, config_address, config_data, read_data, write_data, write_address, read_value,
  write_value,
}

-- For a bus below 256, a device below 32, a function below 8 and an offset below 256,
-- `MakeAddress` returns the enable bit plus bus, device, function and dword in their fields.
pub make_address_as_sum :
    (bus dev func addr : ℕ)
    → bus < 256
    → dev < 32
    → func < 8
    → addr < 256
    → make_address bus dev func addr
      ≡ 2 ^ 31 + bus * 2 ^ 16 + dev * 2 ^ 11 + func * 2 ^ 8 + addr / 4 * 4
unfolding make_address
make_address_as_sum bus dev func addr hb hd hf ha =
    rw
      (
        bit_and-field 6 2 addr,
        bit_or-add 31 0x80000000 (u32 (bus * 2 ^ 16)) (omega arith) (omega arith),
        bit_or-add 16 (2 ^ 31 + u32 (bus * 2 ^ 16)) (u32 (dev * 2 ^ 11)) (omega arith)
            (omega arith),
        bit_or-add 11 (2 ^ 31 + u32 (bus * 2 ^ 16) + u32 (dev * 2 ^ 11)) (u32 (func * 2 ^ 8))
            (omega arith) (omega arith),
        bit_or-add 8 (2 ^ 31 + u32 (bus * 2 ^ 16) + u32 (dev * 2 ^ 11) + u32 (func * 2 ^ 8))
            (addr / 2 ^ 2 % 2 ^ 6 * 2 ^ 2) (omega arith) (omega arith),
      )
      (omega arith)

-- Two locations in range that have the same address agree in bus, device, function and dword.
pub make_address_injective :
    (bus dev func addr bus' dev' func' addr' : ℕ)
    → (bus < 256) × (dev < 32) × (func < 8) × (addr < 256)
    → (bus' < 256) × (dev' < 32) × (func' < 8) × (addr' < 256)
    → make_address bus dev func addr ≡ make_address bus' dev' func' addr'
    → (bus ≡ bus') × (dev ≡ dev') × (func ≡ func') × (addr / 4 ≡ addr' / 4)
make_address_injective bus dev func addr bus' dev' func' addr' (hb, hd, hf, ha) (hb', hd', hf', ha')
      e =
    let sums =
      sym (make_address_as_sum bus dev func addr hb hd hf ha)
      ∙ e
      ∙ make_address_as_sum bus' dev' func' addr' hb' hd' hf' ha' in
    (omega arith, omega arith, omega arith, omega arith)

-- What the PCI configuration mechanism documents: a latched address, and a data port on the
-- register behind it. `stored a v` is what the register at `a` holds after `v` is written.
pub record Mechanism (io : Ports) : Type 0 where
  pub reg : io.State → ℕ → ℕ
  pub latched : io.State → ℕ
  pub stored : ℕ → ℕ → ℕ
  pub latched-out : (a : ℕ) (s : io.State) → latched (io.out32 config_address a s) ≡ a
  pub reg-out : (a b : ℕ) (s : io.State) → reg (io.out32 config_address a s) b ≡ reg s b
  pub in_value : (s : io.State) → (io.in32 config_data s).0 ≡ reg s (latched s)
  pub reg-in : (b : ℕ) (s : io.State) → reg (io.in32 config_data s).1 b ≡ reg s b
  pub reg-out_data :
      (v b : ℕ) (s : io.State)
      → reg (io.out32 config_data v s) b ≡ (if b == latched s then stored b v else reg s b)

module _ (io : Ports) (m : Mechanism io) where
  open io use {State}
  open m use {reg, stored}

  pub read_data-value : (a : ℕ) (s : State) → (read_data io a s).0 ≡ reg s a
  unfolding read_data write_address read_value
  read_data-value a s = rw (m.in_value, m.latched-out, m.reg-out) refl

  pub reg-read_data : (a b : ℕ) (s : State) → reg (read_data io a s).1 b ≡ reg s b
  unfolding read_data write_address read_value
  reg-read_data a b s = rw (m.reg-in, m.reg-out) refl

  pub reg-write_data :
      (a v b : ℕ) (s : State)
      → reg (write_data io a v s).1 b ≡ (if b == a then stored b v else reg s b)
  unfolding write_data write_address write_value
  reg-write_data a v b s = rw (m.reg-out_data, m.latched-out, m.reg-out) refl
