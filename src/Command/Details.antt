-- ===== src/Command/Details.antt =====
-- command.cpp: what Lspci prints for one device.
use seccamp_os.Base.{
  ℕ, zero, suc, ◌+◌, ◌*◌, ◌<◌, refl, ◌∙◌, arith, Bool-cases, inl, inr, List, [], ◌∷◌, ◌==◌, ==_ne,
  Memory, u8, length, bit_and, ◌>>>◌,
}
use seccamp_os.Ports.{Ports}
use seccamp_os.Pci.Laws.{Mechanism, read_data-value, reg-read_data}
use seccamp_os.Pci.Device.{
  Device, read_conf_reg, read_capability_pointer, read_capability_structure,
  read_pcie_capability_structure,
}
use seccamp_os.Command.{print_status, print_bars, print_capability, print_capabilities}
use seccamp_os.Command.Effects.{Printed, DeviceTable, ◌>>=◌, ◌>>◌, print, at_ports}
use seccamp_os.Command.Prints.{
  Prints, Returns, Prints-pure, Prints-print, Prints-then, Prints-ports_then, Prints-print_then,
}
use seccamp_os.Command.Report.{
  conf, status_line, bar_lines, capability_at, pcie_at, capability_lines, IsChain, chain_lines,
}

module _ (io : Ports) (m : Mechanism io) (reg : ℕ → ℕ) (table : DeviceTable) (mem : Memory)
    (device : Device) where
  read_conf_reg-Returns :
      (addr : ℕ) → Returns io m reg table mem (read_conf_reg io device addr) (conf reg device addr)
  unfolding read_conf_reg
  read_conf_reg-Returns addr s h =
      (read_data-value io m _ s ∙ h _, λ b. reg-read_data io m _ b s ∙ h b)

  pub print_status-Prints :
      Prints io m reg table mem (print_status io device) tt (status_line reg device ∷ [])
  unfolding print_status
  print_status-Prints =
      Prints-ports_then io m reg table mem (read_conf_reg io device 0x04)
        (λ v. print (Printed.status_command_line (bit_and (v >>> 16) 0xffff) (bit_and v 0xffff)))
        (read_conf_reg-Returns 0x04) (Prints-print io m reg table mem (status_line reg device))

  pub print_bars-Prints :
      (rounds i : ℕ)
      → Prints io m reg table mem (print_bars io device rounds i) tt (bar_lines reg device rounds i)
  unfolding print_bars
  print_bars-Prints zero i = Prints-pure io m reg table mem tt
  print_bars-Prints (suc rounds) i =
      let rest = print_bars io device rounds (i + 1) in
      Prints-ports_then io m reg table mem (read_conf_reg io device (0x10 + 4 * i))
        (λ bar. print (Printed.bar_line i bar) >> rest) (read_conf_reg-Returns (0x10 + 4 * i))
        (Prints-print_then io m reg table mem (Printed.bar_line i (conf reg device (0x10 + 4 * i)))
          rest (print_bars-Prints rounds (i + 1)))

  read_capability_structure-Returns :
      (p : ℕ)
      → Returns io m reg table mem
          (read_capability_structure io device p)
          (capability_at reg device p)
  unfolding read_capability_structure
  read_capability_structure-Returns p s h =
      let (value, same) = read_conf_reg-Returns p s h in (rw value refl, same)

  pub read_capability_pointer-Returns :
      Returns io m reg table mem (read_capability_pointer io device) (u8 (conf reg device 0x34))
  unfolding read_capability_pointer
  read_capability_pointer-Returns s h =
      let (value, same) = read_conf_reg-Returns 0x34 s h in (rw value refl, same)

  read_pcie-Returns :
      (p : ℕ)
      → Returns io m reg table mem
          (read_pcie_capability_structure io device p)
          (pcie_at reg device p)
  unfolding read_pcie_capability_structure
  read_pcie-Returns p s h =
      let (v₀, h₀) = read_conf_reg-Returns p s h in
      let (v₁, h₁) = read_conf_reg-Returns (u8 (p + 4)) _ h₀ in
      let (v₂, h₂) = read_conf_reg-Returns (u8 (p + 8)) _ h₁ in
      let (v₃, h₃) = read_conf_reg-Returns (u8 (p + 12)) _ h₂ in
      let (v₄, h₄) = read_conf_reg-Returns (u8 (p + 16)) _ h₃ in
      let (v₅, h₅) = read_conf_reg-Returns (u8 (p + 20)) _ h₄ in
      let (v₆, h₆) = read_conf_reg-Returns (u8 (p + 24)) _ h₅ in
      let (v₇, h₇) = read_conf_reg-Returns (u8 (p + 28)) _ h₆ in
      let (v₈, h₈) = read_conf_reg-Returns (u8 (p + 32)) _ h₇ in
      (rw (v₀, v₁, v₂, v₃, v₄, v₅, v₆, v₇, v₈) refl, h₈)

  print_capability-Prints :
      (p : ℕ)
      → Prints io m reg table mem
          (print_capability io device p (capability_at reg device p))
          tt
          (capability_lines reg device p)
  unfolding print_capability
  print_capability-Prints p = elim (Bool-cases ((capability_at reg device p).cap_id == 0x10)) [
    | inl pcie ↦ rw pcie (
        Prints-print_then io m reg table mem Printed.pcie_line
          (at_ports (read_pcie_capability_structure io device p) >>= λ c.
            print (Printed.pcie_cap_line c))
          (Prints-ports_then io m reg table mem (read_pcie_capability_structure io device p)
            (λ c. print (Printed.pcie_cap_line c)) (read_pcie-Returns p)
            (Prints-print io m reg table mem (Printed.pcie_cap_line (pcie_at reg device p)))))
    | inr other ↦
        rw other (
          Prints-print io m reg table mem (Printed.cap_id_line (capability_at reg device p).cap_id))
  ]

  pub print_capabilities-Prints :
      (fuel ptr : ℕ) (ps : List ℕ)
      → IsChain reg device ptr ps
      → length ps < fuel
      → Prints io m reg table mem
          (print_capabilities io device fuel ptr)
          tt
          (chain_lines reg device ps)
  unfolding print_capabilities
  print_capabilities-Prints zero ptr ps chain enough = absurd (omega arith)
  print_capabilities-Prints (suc fuel) ptr [] chain enough =
      rw chain (Prints-pure io m reg table mem tt)
  print_capabilities-Prints (suc fuel) ptr (p ∷ ps) (here, ne, chain) enough =
      let rest = print_capabilities io device fuel in
      rw (here, ==_ne p 0 ne)
        (Prints-ports_then io m reg table mem (read_capability_structure io device p)
          (λ cap. print_capability io device p cap >> rest cap.next_ptr)
          (read_capability_structure-Returns p)
          (Prints-then io m reg table mem
            (print_capability io device p (capability_at reg device p))
            (λ _. rest (capability_at reg device p).next_ptr) (print_capability-Prints p)
            (print_capabilities-Prints fuel (capability_at reg device p).next_ptr ps chain
              (omega arith))))
