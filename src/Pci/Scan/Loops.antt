-- ===== src/Pci/Scan/Loops.antt =====
-- pci.cpp: the loops of `BusScanner` report what the registers hold.
use seccamp_os.Base.{
  ℕ, ◌<◌, ◌≡◌, refl, ap, ◌∙◌, true, none, some, List, [], ◌∷◌, ◌++◌, inl, inr, Bool-cases,
}
use seccamp_os.Ports.{Ports}
use seccamp_os.Pci.{
  make_address, get_vendor_id, get_device_id, get_header_type, get_class_id, get_bus_numbers,
  read_data,
}
use seccamp_os.Pci.Laws.{Mechanism, read_data-value, reg-read_data}
use seccamp_os.Pci.Scan.{ScanCallbackParam, is_bridge, Scanner, ◌>=>◌, read_param, scan_func}
use seccamp_os.Pci.Scan.Found.{
  run_callback, is_present, header_at, vendor_at, param_at, secondary, with_children,
}

pub run_callback-append :
    {G : Type 0} (callback : ScanCallbackParam → G → G) (ps qs : List ScanCallbackParam) (g : G)
    → run_callback callback (ps ++ qs) g ≡ run_callback callback qs (run_callback callback ps g)
run_callback-append callback [] qs g = refl
run_callback-append callback (p ∷ ps) qs g = run_callback-append callback ps qs (callback p g)

pub then_some : {S G : Type 0} (f k : Scanner S G) (x y : G × S) → f x ≡ some y → (f >=> k) x ≡ k y
then_some f k x y e = ap (λ o. elim o [ none ↦ none | some z ↦ k z ]) e

module _ (io : Ports) (m : Mechanism io) {G : Type 0} (callback : ScanCallbackParam → G → G)
    (reg : ℕ → ℕ) where
  open io use {State}

  -- The registers are `reg`.
  abbrev pub Holds : State → Type 0
  Holds s = (a : ℕ) → m.reg s a ≡ reg a

  -- A scanner hands the callback the parameters `ps` in order, and leaves the registers alone.
  abbrev pub Reports : Scanner State G → List ScanCallbackParam → Type 0
  Reports f ps =
      (g : G) (s : State)
      → Holds s
      → (s' : State) × (f (g, s) ≡ some (run_callback callback ps g, s')) × Holds s'

  Holds-read : (a : ℕ) (s : State) → Holds s → Holds (read_data io a s).1
  Holds-read a s h b = reg-read_data io m a b s ∙ h b

  value-read : (a : ℕ) (s : State) → Holds s → (read_data io a s).0 ≡ reg a
  value-read a s h = read_data-value io m a s ∙ h a

  pub Reports-then :
      (f k : Scanner State G) (ps qs : List ScanCallbackParam)
      → Reports f ps
      → Reports k qs
      → Reports (f >=> k) (ps ++ qs)
  Reports-then f k ps qs hf hk g s h =
      let (s₁, e₁, h₁) = hf g s h in
      let (s₂, e₂, h₂) = hk (run_callback callback ps g) s₁ h₁ in
      (s₂, then_some f k (g, s) _ e₁ ∙ rw run_callback-append e₂, h₂)

  pub Reports-nothing : Reports some []
  Reports-nothing g s h = (s, refl, h)

  -- The fields that `ScanFunc` and `ScanDev` read.
  pub vendor_id-read :
      (bus dev func : ℕ) (s : State)
      → Holds s
      → (get_vendor_id io bus dev func s).0 ≡ vendor_at reg bus dev func
  unfolding get_vendor_id
  vendor_id-read bus dev func s h = rw (value-read _ s h) refl

  pub Holds-vendor_id :
      (bus dev func : ℕ) (s : State) → Holds s → Holds (get_vendor_id io bus dev func s).1
  unfolding get_vendor_id
  Holds-vendor_id bus dev func s h = Holds-read _ s h

  pub header_type-read :
      (bus dev func : ℕ) (s : State)
      → Holds s
      → (get_header_type io bus dev func s).0 ≡ header_at reg bus dev func
  unfolding get_header_type
  header_type-read bus dev func s h = rw (value-read _ s h) refl

  pub Holds-header_type :
      (bus dev func : ℕ) (s : State) → Holds s → Holds (get_header_type io bus dev func s).1
  unfolding get_header_type
  Holds-header_type bus dev func s h = Holds-read _ s h

  param-read :
      (bus dev func header_type : ℕ) (s : State)
      → Holds s
      → header_type ≡ header_at reg bus dev func
      → (read_param io callback bus dev func header_type s).0 ≡ param_at reg bus dev func
  unfolding read_param get_class_id get_device_id get_vendor_id
  param-read bus dev func header_type s h e =
      let h₁ = Holds-read (make_address bus dev func 0x08) s h in
      let h₂ = Holds-read (make_address bus dev func 0x00) _ h₁ in
      rw (value-read _ s h, value-read _ _ h₁, value-read _ _ h₂, e) refl

  Holds-param :
      (bus dev func header_type : ℕ) (s : State)
      → Holds s
      → Holds (read_param io callback bus dev func header_type s).1
  unfolding read_param get_class_id get_device_id get_vendor_id
  Holds-param bus dev func header_type s h = Holds-read _ _ (Holds-read _ _ (Holds-read _ s h))

  bus_numbers-read :
      (bus dev func : ℕ) (s : State)
      → Holds s
      → (get_bus_numbers io bus dev func s).0 ≡ reg (make_address bus dev func 0x18)
  unfolding get_bus_numbers
  bus_numbers-read bus dev func s h = value-read _ s h

  Holds-bus_numbers :
      (bus dev func : ℕ) (s : State) → Holds s → Holds (get_bus_numbers io bus dev func s).1
  unfolding get_bus_numbers
  Holds-bus_numbers bus dev func s h = Holds-read _ s h

  module _ (scan : ℕ → Scanner State G) (behind : ℕ → List ScanCallbackParam) where
    -- The scan of a bus behind a bridge is as the hypotheses of the loops want it.
    abbrev pub Descends : ℕ → Type 0
    Descends bus =
        (dev func : ℕ)
        → dev < 32
        → func < 8
        → is_present reg bus dev func ≡ true
        → is_bridge (param_at reg bus dev func) ≡ true
        → Reports (scan (secondary reg bus dev func)) (behind (secondary reg bus dev func))

    pub scan_func-Reports :
        (bus dev func header_type : ℕ)
        → dev < 32
        → func < 8
        → Descends bus
        → is_present reg bus dev func ≡ true
        → header_type ≡ header_at reg bus dev func
        → Reports
            (scan_func io callback scan bus dev func header_type)
            (with_children reg behind bus dev func)
    unfolding scan_func
    scan_func-Reports bus dev func header_type hd hf down here e g s h =
        let e₁ = param-read bus dev func header_type s h e in
        let h₁ = Holds-param bus dev func header_type s h in
        let e₂ = bus_numbers-read bus dev func _ h₁ in
        let h₂ = Holds-bus_numbers bus dev func _ h₁ in
        elim (Bool-cases (is_bridge (param_at reg bus dev func))) [
          | inl bridge ↦
              rw (e₁, e₂, bridge)
                (down dev func hd hf here bridge (callback (param_at reg bus dev func) g) _ h₂)
          | inr leaf ↦ rw (e₁, leaf) (_, refl, h₁)
        ]
