-- ===== src/Command/Listing.antt =====
-- command.cpp: Lspci without an argument, from the scan of the buses to the lines.
use seccamp_os.Base.{
  ℕ, ◌+◌, ◌<◌, ◌≤◌, ◌≡◌, refl, sym, ap, ◌∙◌, arith, true, Option, some, none, List, [], ◌∷◌, ◌++◌,
  map, append_assoc, length, ◌==◌, length-append, append-nil, get_or,
}
use seccamp_os.Ports.{Ports}
use seccamp_os.Pci.{is_single_function_device}
use seccamp_os.Pci.Laws.{Mechanism}
use seccamp_os.Pci.Scan.{scan_all_bus}
use seccamp_os.Pci.Scan.Found.{run_callback, header_at, bus_tree, IsNumbered}
use seccamp_os.Pci.Scan.Host.{scan_all_bus_lem}
use seccamp_os.Command.{
  blank, max_devices, device_at, Sscanf, store_device, print_devices, scan_into_table, find_devices,
  print_all, lspci,
}
use seccamp_os.Command.Effects.{Printed, DeviceTable, Machine, Outcome, bind_done, bind_bounds}
use seccamp_os.Command.Table.{
  Entries, IsTable, append_one, device_at-next, stores-IsTable, stores-overflow,
}
use seccamp_os.Command.Echo.{printing, printing-append}

module _ {S : Type 0} where
  -- The lines for what is in the table.
  print_devices_lem :
      (qs ps : Entries) (w : Machine S)
      → IsTable (ps ++ qs) w.devices
      → print_devices (length qs) (length ps) w
        ≡ Outcome.done (tt, printing (map Printed.device_line qs) w)
  unfolding print_devices
  print_devices_lem [] ps w h =
      ap (λ t. Outcome.done (tt, record w { printed = t })) (sym (append-nil w.printed))
  print_devices_lem (q ∷ qs) ps w h =
      let here : device_at w.devices (length ps) ≡ q =
        ap (λ t. get_or t (length ps) blank) (h.holds ∙ append_assoc ps (q ∷ qs) h.rest)
        ∙ device_at-next ps (qs ++ h.rest) q in
      let count : length (ps ++ (q ∷ [])) ≡ length ps + 1 =
        omega (arith, length-append ps (q ∷ [])) in
      let rest =
        print_devices_lem qs (ps ++ (q ∷ [])) (printing (Printed.device_line q ∷ []) w)
          (rw (append_one ps qs q) h) in
      rw here (rw count at rest)
      ∙ ap (λ t. Outcome.done (tt, t))
          (printing-append (Printed.device_line q ∷ []) (map Printed.device_line qs) w)

module _ (io : Ports) (m : Mechanism io) (sscanf : Sscanf) (fuel : ℕ) where
  open io use {State}

  -- What stands on the buses of a machine.
  abbrev pub tree : Machine State → Entries
  tree w = bus_tree (m.reg w.ports) fuel 0

  -- A machine as it is before the first scan, whose buses can be scanned.
  pub record IsFresh (w : Machine State) : Type 0 where
    pub enough : 256 ≤ fuel
    pub numbered : IsNumbered (m.reg w.ports)
    pub single : is_single_function_device (header_at (m.reg w.ports) 0 0 0) ≡ true
    pub no_devices : w.devices.num_pci_devices ≡ 0
    pub size : length w.devices.pci_devices ≡ max_devices

  fresh-IsTable : (w : Machine State) → IsFresh w → IsTable [] w.devices
  fresh-IsTable w h = record {
    rest = w.devices.pci_devices;
    holds = refl;
    counts = h.no_devices;
    size = h.size;
  }

  abbrev ended : Option DeviceTable → State → Machine State → Outcome (Unit {0} × Machine State)
  ended none s w = Outcome.out_of_bounds
  ended (some t) s w = Outcome.done (tt, record w { devices = t; ports = s })

  scan_into_table-ended :
      (w : Machine State) (o : Option DeviceTable) (s' : State)
      → scan_all_bus io store_device fuel (some w.devices, w.ports) ≡ some (o, s')
      → scan_into_table io fuel w ≡ ended o s' w
  unfolding scan_into_table
  scan_into_table-ended w none s' e = rw (scan_into_table, e) refl
  scan_into_table-ended w (some t) s' e = rw (scan_into_table, e) refl

  -- The scan with what the callback makes of the table.
  find_devices-scans :
      (w : Machine State) (o : Option DeviceTable)
      → IsFresh w
      → run_callback store_device (tree w) (some w.devices) ≡ o
      → (s' : State) × (find_devices io fuel w ≡ ended o s' w)
        × ((a : ℕ) → m.reg s' a ≡ m.reg w.ports a)
  unfolding find_devices
  find_devices-scans w o h e =
      let (s', scanned, same) =
        scan_all_bus_lem io m store_device fuel (some w.devices) w.ports h.enough h.numbered
          h.single in
      let none_known : (w.devices.num_pci_devices == 0) ≡ true = ground (arith, h.no_devices) in
      (s', rw none_known (scan_into_table-ended w o s' (scanned ∙ ap (λ t. some (t, s')) e)), same)

  -- Over ports that follow the PCI configuration mechanism, before the first scan, with bridges
  -- that lead to buses of greater numbers, a host bridge of a single function and fuel of 256 or
  -- more: if at most 32 functions stand on the buses, `Lspci` without an argument stores them all
  -- in the table, prints a line for each in the order of the tree, and leaves the configuration
  -- registers as they were.
  pub lspci_lists :
      (name : List ℕ) (w : Machine State)
      → IsFresh w
      → length (tree w) ≤ max_devices
      → (w' : Machine State) × (lspci io sscanf fuel 1 (name ∷ []) w ≡ Outcome.done (tt, w'))
        × IsTable (tree w) w'.devices
        × ((a : ℕ) → m.reg w'.ports a ≡ m.reg w.ports a)
        × (w'.printed ≡ w.printed ++ map Printed.device_line (tree w))
  unfolding lspci print_all
  lspci_lists name w h fits =
      let (t, stored, holds) =
        stores-IsTable (tree w) [] w.devices (fresh-IsTable w h) (omega arith) in
      let (s', found, same) = find_devices-scans w (some t) h stored in
      let w₁ = record w { devices = t; ports = s' } in
      (
        printing (map Printed.device_line (tree w)) w₁,
        bind_done (find_devices io fuel) (λ _. print_all io) w found
            ∙ rw holds.counts (print_devices_lem (tree w) [] w₁ holds),
        holds,
        same,
        refl,
      )

  -- Over ports that follow the PCI configuration mechanism, before the first scan, with bridges
  -- that lead to buses of greater numbers, a host bridge of a single function and fuel of 256 or
  -- more: if more than 32 functions stand on the buses, `Lspci` writes behind the table, whatever
  -- its arguments are.
  pub lspci_overflow :
      (argc : ℕ) (argv : List (List ℕ)) (w : Machine State)
      → IsFresh w
      → max_devices < length (tree w)
      → lspci io sscanf fuel argc argv w ≡ Outcome.out_of_bounds
  unfolding lspci
  lspci_overflow argc argv w h many =
      let overflows =
        stores-overflow (tree w) [] w.devices (fresh-IsTable w h) (omega arith) (omega arith) in
      let (s', found, same) = find_devices-scans w none h overflows in
      bind_bounds (find_devices io fuel) _ w found
