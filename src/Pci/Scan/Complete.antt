-- ===== src/Pci/Scan/Complete.antt =====
-- pci.cpp: `BusScanner::Scan` reports the functions on a bus and behind its bridges.
use seccamp_os.Base.{
  ℕ, zero, suc, ◌+◌, ◌<◌, ◌≤◌, ◌≡◌, refl, arith, Bool, true, false, List, [], ◌∷◌, ◌++◌, append-nil,
  inl, inr, Bool-cases, ◌==◌, ◌!=◌, if◌then◌else◌,
}
use seccamp_os.Ports.{Ports}
use seccamp_os.Pci.{is_single_function_device}
use seccamp_os.Pci.Laws.{Mechanism}
use seccamp_os.Pci.Scan.{
  ScanCallbackParam, Scanner, scan_func, scan_one, scan_functions, scan_dev, scan_devices, scan,
}
use seccamp_os.Pci.Scan.Found.{
  range, filter, concat_map, is_present, header_at, vendor_at, secondary, with_children,
  device_tree, bus_tree, IsNumbered,
}
use seccamp_os.Pci.Scan.Loops.{
  Reports, Reports-then, Reports-nothing, Descends, vendor_id-read, Holds-vendor_id,
  header_type-read, Holds-header_type, scan_func-Reports,
}

concat_map-filter :
    {A : Type 0} (f : ℕ → List A) (test : ℕ → Bool) (x : ℕ) (xs : List ℕ)
    → concat_map f (filter test (x ∷ xs))
      ≡ (if test x then f x else []) ++ concat_map f (filter test xs)
concat_map-filter f test x xs = elim (Bool-cases (test x)) [
  | inl kept ↦ rw kept refl
  | inr dropped ↦ rw dropped refl
]

!=_== : (a b : ℕ) → (a != b) ≡ true → (a == b) ≡ false
!=_== a b h = ground arith

ne_false : (a b : ℕ) → (a != b) ≡ false → (a == b) ≡ true
ne_false a b h = ground arith

module _ (reg : ℕ → ℕ) (behind : ℕ → List ScanCallbackParam) (bus dev : ℕ) where
  tree-absent : is_present reg bus dev 0 ≡ false → device_tree reg behind bus dev ≡ []
  tree-absent absent = rw absent refl

  tree-single :
      is_present reg bus dev 0 ≡ true
      → is_single_function_device (header_at reg bus dev 0) ≡ true
      → device_tree reg behind bus dev ≡ with_children reg behind bus dev 0
  tree-single here single = rw (here, single) (append-nil (with_children reg behind bus dev 0))

  tree-several :
      is_present reg bus dev 0 ≡ true
      → is_single_function_device (header_at reg bus dev 0) ≡ false
      → device_tree reg behind bus dev
        ≡ with_children reg behind bus dev 0
          ++ concat_map
              (with_children reg behind bus dev)
              (filter (is_present reg bus dev) (range 1 7))
  tree-several here several = rw (here, several) refl

module _ (io : Ports) (m : Mechanism io) {G : Type 0} (callback : ScanCallbackParam → G → G)
    (reg : ℕ → ℕ) where
  open io use {State}

  module _ (scan : ℕ → Scanner State G) (behind : ℕ → List ScanCallbackParam) where
    scan_one-Reports :
        (bus dev func : ℕ)
        → dev < 32
        → func < 8
        → Descends io m callback reg scan behind bus
        → Reports io m callback reg
            (scan_one io callback scan bus dev func)
            (if is_present reg bus dev func then with_children reg behind bus dev func else [])
    unfolding scan_one
    scan_one-Reports bus dev func hd hf down g s h =
        let e₁ = vendor_id-read io m callback reg bus dev func s h in
        let h₁ = Holds-vendor_id io m callback reg bus dev func s h in
        let e₂ = header_type-read io m callback reg bus dev func _ h₁ in
        let h₂ = Holds-header_type io m callback reg bus dev func _ h₁ in
        elim (Bool-cases (is_present reg bus dev func)) [
          | inl here ↦
              rw (e₁, here)
                (scan_func-Reports io m callback reg scan behind bus dev func _ hd hf down here e₂ g
                  _ h₂)
          | inr absent ↦ rw (e₁, absent) (_, refl, h₁)
        ]

    scan_functions-Reports :
        (bus dev rounds func : ℕ)
        → dev < 32
        → func + rounds ≤ 8
        → Descends io m callback reg scan behind bus
        → Reports io m callback reg (scan_functions io callback scan bus dev rounds func) (
            concat_map
              (with_children reg behind bus dev)
              (filter (is_present reg bus dev) (range func rounds)))
    unfolding scan_functions
    scan_functions-Reports bus dev zero func hd hf down = Reports-nothing io m callback reg
    scan_functions-Reports bus dev (suc rounds) func hd hf down =
        rw
          (concat_map-filter (with_children reg behind bus dev) (is_present reg bus dev) func
            (range (func + 1) rounds))
          (Reports-then io m callback reg (scan_one io callback scan bus dev func)
            (scan_functions io callback scan bus dev rounds (func + 1))
            (if is_present reg bus dev func then with_children reg behind bus dev func else [])
            (concat_map (with_children reg behind bus dev)
              (filter (is_present reg bus dev) (range (func + 1) rounds)))
            (scan_one-Reports bus dev func hd (omega arith) down)
            (scan_functions-Reports bus dev rounds (func + 1) hd (omega arith) down))

    scan_dev-Reports :
        (bus dev : ℕ)
        → dev < 32
        → Descends io m callback reg scan behind bus
        → Reports io m callback reg
            (scan_dev io callback scan bus dev)
            (device_tree reg behind bus dev)
    unfolding scan_dev
    scan_dev-Reports bus dev hd down g s h =
        let e₁ = vendor_id-read io m callback reg bus dev 0 s h in
        let h₁ = Holds-vendor_id io m callback reg bus dev 0 s h in
        let e₂ = header_type-read io m callback reg bus dev 0 _ h₁ in
        let h₂ = Holds-header_type io m callback reg bus dev 0 _ h₁ in
        elim (Bool-cases (is_present reg bus dev 0)) [
          | inr absent ↦
              rw
                (
                  tree-absent reg behind bus dev absent,
                  e₁,
                  ne_false (vendor_at reg bus dev 0) 0xffff absent,
                )
                (_, refl, h₁)
          | inl here ↦ elim (Bool-cases (is_single_function_device (header_at reg bus dev 0))) [
            | inl single ↦
                rw
                  (
                    tree-single reg behind bus dev here single,
                    e₁,
                    !=_== (vendor_at reg bus dev 0) 0xffff here,
                    e₂,
                    single,
                  )
                  (scan_func-Reports io m callback reg scan behind bus dev 0 _ hd (omega arith) down
                    here refl g _ h₂)
            | inr several ↦
                rw
                  (
                    tree-several reg behind bus dev here several,
                    e₁,
                    !=_== (vendor_at reg bus dev 0) 0xffff here,
                    e₂,
                    several,
                  )
                  (Reports-then io m callback reg
                    (scan_func io callback scan bus dev 0 (header_at reg bus dev 0))
                    (scan_functions io callback scan bus dev 7 1)
                    (with_children reg behind bus dev 0)
                    (concat_map (with_children reg behind bus dev)
                      (filter (is_present reg bus dev) (range 1 7)))
                    (scan_func-Reports io m callback reg scan behind bus dev 0 _ hd (omega arith)
                      down here refl)
                    (scan_functions-Reports bus dev 7 1 hd (omega arith) down) g _ h₂)
          ]
        ]

    scan_devices-Reports :
        (bus rounds dev : ℕ)
        → dev + rounds ≤ 32
        → Descends io m callback reg scan behind bus
        → Reports io m callback reg
            (scan_devices io callback scan bus rounds dev)
            (concat_map (device_tree reg behind bus) (range dev rounds))
    unfolding scan_devices
    scan_devices-Reports bus zero dev hd down = Reports-nothing io m callback reg
    scan_devices-Reports bus (suc rounds) dev hd down =
        Reports-then io m callback reg (scan_dev io callback scan bus dev)
          (scan_devices io callback scan bus rounds (dev + 1)) (device_tree reg behind bus dev)
          (concat_map (device_tree reg behind bus) (range (dev + 1) rounds))
          (scan_dev-Reports bus dev (omega arith) down)
          (scan_devices-Reports bus rounds (dev + 1) (omega arith) down)

  pub scan-Reports :
      (fuel bus : ℕ)
      → IsNumbered reg
      → bus < 256
      → 256 ≤ bus + fuel
      → Reports io m callback reg (scan io callback fuel bus) (bus_tree reg fuel bus)
  unfolding scan
  scan-Reports zero bus numbered small enough = absurd (omega arith)
  scan-Reports (suc fuel) bus numbered small enough =
      scan_devices-Reports (scan io callback fuel) (bus_tree reg fuel) bus 32 0 (omega arith)
        (λ dev func hd hf here bridge.
          let up = numbered bus dev func small hd hf here bridge in
          scan-Reports fuel (secondary reg bus dev func) numbered (omega arith) (omega arith))
