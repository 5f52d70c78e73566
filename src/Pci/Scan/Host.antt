-- ===== src/Pci/Scan/Host.antt =====
-- pci.cpp: `ScanAllBus`, for a host bridge with one function and for one with several.
use seccamp_os.Base.{ℕ, ◌≤◌, ◌≡◌, refl, arith, true, false, some}
use seccamp_os.Ports.{Ports}
use seccamp_os.Pci.{is_single_function_device}
use seccamp_os.Pci.Laws.{Mechanism}
use seccamp_os.Pci.Scan.{ScanCallbackParam, scan_host_functions, scan_all_bus}
use seccamp_os.Pci.Scan.Found.{run_callback, is_present, header_at, bus_tree, IsNumbered}
use seccamp_os.Pci.Scan.Loops.{vendor_id-read, header_type-read, Holds-header_type}
use seccamp_os.Pci.Scan.Complete.{scan-Reports}

-- Over ports that follow the PCI configuration mechanism: if every bridge leads to a bus of a
-- greater number and the host bridge's header names it a single function, `ScanAllBus` ends with
-- fuel of 256 or more, has handed the callback every function on bus 0 and behind its bridges, in
-- the order of the tree, and leaves the configuration registers as they were.
pub scan_all_bus_lem :
    (io : Ports) (m : Mechanism io) {G : Type 0} (callback : ScanCallbackParam → G → G) (fuel : ℕ)
    (g : G) (s : io.State)
    → 256 ≤ fuel
    → IsNumbered (m.reg s)
    → is_single_function_device (header_at (m.reg s) 0 0 0) ≡ true
    → (s' : io.State) × (scan_all_bus io callback fuel (g, s)
        ≡ some (run_callback callback (bus_tree (m.reg s) fuel 0) g, s'))
      × ((a : ℕ) → m.reg s' a ≡ m.reg s a)
unfolding scan_all_bus
scan_all_bus_lem io m callback fuel g s enough numbered single =
    let h : (a : ℕ) → m.reg s a ≡ m.reg s a = λ a. refl in
    rw (header_type-read io m callback (m.reg s) 0 0 0 s h, single)
      (scan-Reports io m callback (m.reg s) fuel 0 numbered (omega arith) (omega arith) g _
        (Holds-header_type io m callback (m.reg s) 0 0 0 s h))

-- Over ports that follow the PCI configuration mechanism: if the host bridge's header names
-- several functions and function 0 of it is present, `ScanAllBus` hands the callback nothing,
-- whatever is on the buses.
pub scan_all_bus-skips :
    (io : Ports) (m : Mechanism io) {G : Type 0} (callback : ScanCallbackParam → G → G) (fuel : ℕ)
    (g : G) (s : io.State)
    → is_single_function_device (header_at (m.reg s) 0 0 0) ≡ false
    → is_present (m.reg s) 0 0 0 ≡ true
    → (s' : io.State) × (scan_all_bus io callback fuel (g, s) ≡ some (g, s'))
unfolding scan_all_bus scan_host_functions
scan_all_bus-skips io m callback fuel g s several here =
    let h : (a : ℕ) → m.reg s a ≡ m.reg s a = λ a. refl in
    let h₁ = Holds-header_type io m callback (m.reg s) 0 0 0 s h in
    rw
      (
        header_type-read io m callback (m.reg s) 0 0 0 s h,
        several,
        vendor_id-read io m callback (m.reg s) 0 0 0 _ h₁,
        here,
      )
      (_, refl)
