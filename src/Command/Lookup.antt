-- ===== src/Command/Lookup.antt =====
-- command.cpp: Lspci with a device specifier.
use seccamp_os.Base.{
  ℕ, ◌^◌, ◌<◌, ◌≤◌, ◌≡◌, ◌≢◌, refl, ◌∙◌, arith, Option, some, none, List, [], ◌∷◌, ◌++◌, Memory, u8,
  length,
}
use seccamp_os.ErrorCode.{success}
use seccamp_os.Ports.{Ports}
use seccamp_os.Pci.{make_address}
use seccamp_os.Pci.Laws.{Mechanism}
use seccamp_os.Pci.Device.{Device, calc_bar_address, calc_bar_map_size, read_capability_pointer}
use seccamp_os.Pci.Device.Bars.{IsBar32, calc_bar_map_size_lem}
use seccamp_os.Command.{
  Sscanf, device_at, is_at, opened, find_devices, print_status, print_bars, print_capabilities,
  print_details, print_specified, lspci,
}
use seccamp_os.Command.Effects.{
  Printed, DeviceTable, Machine, Outcome, ◌>>=◌, ◌>>◌, print, at_ports, bind_done,
}
use seccamp_os.Command.Echo.{printing}
use seccamp_os.Command.Prints.{
  Sees, Prints, Returns, Prints-then, Prints-ports_then, Prints-print_then,
}
use seccamp_os.Command.Search.{
  find_index-first, find_index-none, Unknown, IsFirst, find_devices-again,
}
use seccamp_os.Command.Report.{conf, IsChain, detail_lines}
use seccamp_os.Command.Details.{
  print_status-Prints, print_bars-Prints, read_capability_pointer-Returns,
  print_capabilities-Prints,
}

-- Whether a register is of this kind depends on what it holds only.
IsBar32-same :
    (io : Ports) (m : Mechanism io) (a k : ℕ) (s s' : io.State)
    → m.reg s' a ≡ m.reg s a
    → IsBar32 io m a k s
    → IsBar32 io m a k s'
IsBar32-same io m a k s s' same spec = record {
  flags = spec.flags;
  flags_fit = spec.flags_fit;
  is_32bits = spec.is_32bits;
  value_fits = rw same spec.value_fits;
  stored_bits = spec.stored_bits;
  stable = rw same spec.stable;
}

module _ (io : Ports) (m : Mechanism io) (table : DeviceTable) (mem : Memory) (device : Device)
    (s₀ : io.State) where
  abbrev bar_0 : ℕ
  bar_0 = make_address device.bus device.dev device.func (calc_bar_address 0)

  map_size-Returns :
      (k : ℕ)
      → 4 ≤ k
      → k < 32
      → IsBar32 io m bar_0 k s₀
      → Returns io m
          (m.reg s₀)
          table
          mem
          (calc_bar_map_size io device 0)
          (record { value = 2 ^ k; error = success })
  map_size-Returns k low high spec s h =
      let (size, same) =
        calc_bar_map_size_lem io m device 0 k s (omega arith) low high
          (IsBar32-same io m bar_0 k s₀ s (h bar_0) spec) in
      (size, λ b. same b ∙ h b)

  print_details-Prints :
      (fuel k : ℕ) (ps : List ℕ)
      → 4 ≤ k
      → k < 32
      → IsBar32 io m bar_0 k s₀
      → IsChain (m.reg s₀) device (u8 (conf (m.reg s₀) device 0x34)) ps
      → length ps < fuel
      → Prints io m
          (m.reg s₀)
          table
          mem
          (print_details io device fuel)
          tt
          (detail_lines (m.reg s₀) device (2 ^ k) ps)
  unfolding print_details
  print_details-Prints fuel k ps low high spec chain enough =
      let capabilities =
        at_ports (read_capability_pointer io device) >>= print_capabilities io device fuel in
      let sizes =
        at_ports (calc_bar_map_size io device 0)
        >>= (λ map_size. print (Printed.bar_map_size_line map_size.value) >> capabilities) in
      Prints-then io m (m.reg s₀) table mem (print_status io device)
        (λ _. print_bars io device 6 0 >> sizes)
        (print_status-Prints io m (m.reg s₀) table mem device)
        (Prints-then io m (m.reg s₀) table mem (print_bars io device 6 0) (λ _. sizes)
          (print_bars-Prints io m (m.reg s₀) table mem device 6 0)
          (Prints-ports_then io m (m.reg s₀) table mem (calc_bar_map_size io device 0)
            (λ map_size. print (Printed.bar_map_size_line map_size.value) >> capabilities)
            (map_size-Returns k low high spec)
            (Prints-print_then io m (m.reg s₀) table mem (Printed.bar_map_size_line (2 ^ k))
              capabilities
              (Prints-ports_then io m (m.reg s₀) table mem (read_capability_pointer io device)
                (print_capabilities io device fuel)
                (read_capability_pointer-Returns io m (m.reg s₀) table mem device)
                (print_capabilities-Prints io m (m.reg s₀) table mem device fuel _ ps chain
                  enough)))))

-- The lines for a specifier that names no device.
abbrev pub complaint : Option (ℕ × ℕ × ℕ) → List ℕ → Printed
complaint none arg = Printed.invalid_specifier arg
complaint (some _) arg = Printed.no_such_device arg

module _ (io : Ports) (sscanf : Sscanf) (fuel : ℕ) where
  open io use {State}

  lspci-specified :
      (name arg : List ℕ) (w : Machine State)
      → w.devices.num_pci_devices ≢ 0
      → lspci io sscanf fuel 2 (name ∷ arg ∷ []) w ≡ print_specified io sscanf fuel arg w
  unfolding lspci
  lspci-specified name arg w scanned =
      bind_done (find_devices io fuel) (λ _. print_specified io sscanf fuel arg) w
        (find_devices-again io fuel w scanned)

  print_specified-Unknown :
      (arg : List ℕ) (w : Machine State) (o : Option (ℕ × ℕ × ℕ))
      → sscanf arg ≡ o
      → Unknown o w.devices
      → print_specified io sscanf fuel arg w ≡ Outcome.done (tt, printing (complaint o arg ∷ []) w)
  unfolding print_specified
  print_specified-Unknown arg w none e unknown = rw (print_specified, e) refl
  print_specified-Unknown arg w (some (bus, dev, func)) e unknown =
      rw
        (
          print_specified,
          e,
          find_index-none (is_at bus dev func) w.devices w.devices.num_pci_devices 0
              (λ j h. unknown j (omega arith)),
        )
        refl

  -- Once the table has a device, `Lspci` with one argument that `sscanf` does not take, or that
  -- names no device of the table, prints the message for it and changes nothing else.
  pub lspci-Unknown :
      (name arg : List ℕ) (w : Machine State)
      → w.devices.num_pci_devices ≢ 0
      → Unknown (sscanf arg) w.devices
      → lspci io sscanf fuel 2 (name ∷ arg ∷ []) w
        ≡ Outcome.done (tt, printing (complaint (sscanf arg) arg ∷ []) w)
  lspci-Unknown name arg w scanned unknown =
      lspci-specified name arg w scanned ∙ print_specified-Unknown arg w (sscanf arg) refl unknown

  print_specified-found :
      (arg : List ℕ) (bus dev func i : ℕ) (w : Machine State)
      → sscanf arg ≡ some (bus, dev, func)
      → IsFirst bus dev func i w.devices
      → print_specified io sscanf fuel arg w
        ≡ (print (Printed.device_line (device_at w.devices i)) >>= (λ _.
              print_details io (opened bus dev func (device_at w.devices i).header_type) fuel))
            w
  unfolding print_specified
  print_specified-found arg bus dev func i w e found =
      rw
        (
          print_specified,
          e,
          find_index-first (is_at bus dev func) w.devices w.devices.num_pci_devices 0 i
              (omega arith) (omega (arith, found.in_table)) found.matches (λ j h. found.others j),
        )
        refl

  -- Over ports that follow the PCI configuration mechanism and once the table has a device: if
  -- the argument names a device of the table, its first base address register is a 32-bit
  -- register of `2 ^ k` bytes, from 16 bytes to 2 GiB, and its capability list ends in fewer
  -- steps than the fuel, `Lspci` prints the line of the first device with these numbers, its
  -- status and command, its six base address registers, the size `2 ^ k`, and each capability of
  -- the list in order; configuration registers, table and memory end as they were.
  pub lspci_device :
      (m : Mechanism io) (name arg : List ℕ) (bus dev func i k : ℕ) (ps : List ℕ)
      (w : Machine State)
      → w.devices.num_pci_devices ≢ 0
      → sscanf arg ≡ some (bus, dev, func)
      → IsFirst bus dev func i w.devices
      → 4 ≤ k
      → k < 32
      → let device = opened bus dev func (device_at w.devices i).header_type in
        IsBar32 io m (make_address device.bus device.dev device.func (calc_bar_address 0)) k w.ports
        → IsChain (m.reg w.ports) device (u8 (conf (m.reg w.ports) device 0x34)) ps
        → length ps < fuel
        → (w' : Machine State) × (lspci io sscanf fuel 2 (name ∷ arg ∷ []) w
            ≡ Outcome.done (tt, w'))
          × Sees io m (m.reg w.ports) w.devices w.memory w'
          × (w'.printed
              ≡ w.printed
                ++ (Printed.device_line (device_at w.devices i)
                    ∷ detail_lines (m.reg w.ports) device (2 ^ k) ps))
  lspci_device m name arg bus dev func i k ps w scanned e found low high spec chain enough =
      let device = opened bus dev func (device_at w.devices i).header_type in
      let details = print_details io device fuel in
      let all =
        Prints-print_then io m (m.reg w.ports) w.devices w.memory
          (Printed.device_line (device_at w.devices i)) details
          (print_details-Prints io m w.devices w.memory device w.ports fuel k ps low high spec chain
            enough) in
      let (w', ran, sees, printed) =
        all.ends w (record { registers = λ a. refl; devices = refl; memory = refl }) in
      (
        w',
        lspci-specified name arg w scanned
            ∙ print_specified-found arg bus dev func i w e found
            ∙ ran,
        sees,
        printed,
      )
