-- ===== src/Command/Usb/Located.antt =====
-- command.cpp: Xhci against a controller that does nothing, found by its class and by what its
-- registers hold.
use seccamp_os.Base.{
  ℕ, ◌+◌, ◌*◌, ◌/◌, ◌%◌, ◌^◌, ◌<◌, ◌≡◌, ◌⊎◌, inl, inr, refl, sym, ap, subst, ◌∙◌, arith, true,
  false, List, Memory, read8, read32, read32-lt, bit_and, bit_and-low, u8, u64, some,
}
use seccamp_os.Ports.{Ports}
use seccamp_os.Bitutil.{clear_bits}
use seccamp_os.Bitutil.Laws.{clear_bits-low}
use seccamp_os.Register.{read_32, read_64}
use seccamp_os.Register.Laws.{read_access32-eq}
use seccamp_os.Pci.{make_address}
use seccamp_os.Pci.Laws.{Mechanism}
use seccamp_os.Pci.Device.{normal_device, calc_bar_address, read_bar}
use seccamp_os.Pci.Device.Bars.{read_bar-32}
use seccamp_os.Pci.Device.WideBars.{read_bar-64}
use seccamp_os.Pci.Scan.{ScanCallbackParam}
use seccamp_os.EventRing
use seccamp_os.EventRing.Start.{IsReady}
use seccamp_os.Xhci
use seccamp_os.Command.{device_at, find_index}
use seccamp_os.Command.Effects.{DeviceTable, Machine, Outcome}
use seccamp_os.Command.Search.{find_index-first}
use seccamp_os.Command.Usb.{Frame, is_xhci}
use seccamp_os.Command.Usb.Drive.{xhci}
use seccamp_os.Command.Usb.Idle.{idle}
use seccamp_os.Command.Usb.Quiet.{NoContexts, with_ring, started, controller_of, quiet_run}

-- Base class, sub class and interface of a USB controller of the kind.
abbrev pub HasXhciClass : ScanCallbackParam → Type 0
HasXhciClass p = (p.base_class ≡ 0x0c) × (p.sub_class ≡ 0x03) × (p.interface ≡ 0x30)

-- Entry `i` of the table is the first of the class.
pub record IsFirstXhci (i : ℕ) (t : DeviceTable) : Type 0 where
  pub in_table : i < t.num_pci_devices
  pub matches : HasXhciClass (device_at t i)
  pub others : (j : ℕ) → j < i → ¬ HasXhciClass (device_at t j)

is_xhci-true : (p : ScanCallbackParam) → HasXhciClass p → is_xhci p ≡ true
is_xhci-true p h = ground arith

is_xhci-false : (p : ScanCallbackParam) → ¬ HasXhciClass p → is_xhci p ≡ false
is_xhci-false p h = ground arith

find_index-IsFirstXhci :
    (i : ℕ) (t : DeviceTable) → IsFirstXhci i t → find_index is_xhci t t.num_pci_devices 0 ≡ some i
find_index-IsFirstXhci i t h =
    find_index-first is_xhci t t.num_pci_devices 0 i (omega arith) (omega (arith, h.in_table))
      (is_xhci-true (device_at t i) h.matches)
      (λ j _ lt. is_xhci-false (device_at t j) (h.others j lt))

-- The controller whose capability registers are at `base`: the length of these, in the first
-- byte, leads to the operational registers.
abbrev pub at_base : ℕ → Memory → Xhci.Controller
at_base base m = record { mmio_base = base; cap = base; op = u64 (base + read8 m base) }

low_byte : (m : Memory) (a : ℕ) → bit_and (read32 m a) 0xff ≡ read8 m a
low_byte m a = bit_and-low 8 (read32 m a) ∙ unfold read32 in omega arith

controller_lem : (base : ℕ) (m : Memory) → Xhci.controller base m ≡ at_base base m
unfolding Xhci.controller Xhci.read_caplength read_32
controller_lem base m =
    let length : u8 (bit_and (read32 m base) 0xff) ≡ read8 m base =
      omega (arith, low_byte m base) in
    rw length refl

-- Interrupter 0 lies 32 bytes behind the runtime registers, whose offset is RTSOFF without its
-- five lowest bits.
abbrev pub interrupter_at : ℕ → Memory → ℕ
interrupter_at base m = u64 (base + read32 m (base + 0x18) / 32 * 32 + 0x20)

interrupter_lem :
    (c : Xhci.Controller) (m : Memory)
    → c.cap ≡ c.mmio_base
    → Xhci.element (Xhci.interrupter_reg_sets c m) 0 ≡ interrupter_at c.mmio_base m
unfolding Xhci.interrupter_reg_sets read_32
interrupter_lem c m same =
    rw
      (same, clear_bits-low 27 5 (read32 m (c.mmio_base + 0x18)) (read32-lt m (c.mmio_base + 0x18)))
      (omega arith)

-- As many device contexts as the low byte of CONFIG says, from where DCBAAP points to.
abbrev pub contexts_at : ℕ → Memory → Xhci.ArrayWrapper
contexts_at op m = record {
  width = 8;
  array = read_64 m (op + 0x30) / 64 * 64;
  size = read8 m (op + 0x38);
}

contexts_lem :
    (c : Xhci.Controller) (m : Memory) → Xhci.device_context_addresses c m ≡ contexts_at c.op m
unfolding Xhci.device_context_addresses read_32
contexts_lem c m =
    rw
      (
        read_access32-eq m (c.op + 0x30),
        low_byte m (c.op + 0x38),
        clear_bits-low 58 6 (read_64 m (c.op + 0x30)) (read_64-lt m (c.op + 0x30)),
      )
      refl
  where
    read_64-lt : (m : Memory) (a : ℕ) → read_64 m a < 2 ^ 64
    read_64-lt m a = unfold read_64 in omega (arith, read32-lt m a, read32-lt m (a + 4))

module _ (io : Ports) (m : Mechanism io) (frame : Frame) where
  open io use {State}

  -- The first base address register of the device, of 32 or of 64 bits, holds `base`.
  abbrev pub HoldsBase : ScanCallbackParam → State → ℕ → Type 0
  HoldsBase p s base =
      let lower = m.reg s (make_address p.bus p.dev p.func 0x10) in
      let upper = m.reg s (make_address p.bus p.dev p.func 0x14) in
      (lower < 2 ^ 32)
      × (upper < 2 ^ 32)
      × ((p.bus < 256) × (p.dev < 32) × (p.func < 8))
      × (((lower / 4 % 2 ≡ 0) × (base ≡ lower / 16 * 16))
          ⊎ ((lower / 4 % 2 ≡ 1) × (base ≡ (lower + upper * 2 ^ 32) / 16 * 16)))

  base_lem :
      (p : ScanCallbackParam) (s : State) (base : ℕ)
      → HoldsBase p s base
      → let (bar, s') = read_bar io (normal_device p.bus p.dev p.func) 0 s in
        (clear_bits 64 bar.value 0xf ≡ base) × ((b : ℕ) → m.reg s' b ≡ m.reg s b)
  unfolding calc_bar_address
  base_lem p s base (low, high, in_range, inl (bits, held)) =
      let (read, same) =
        read_bar-32 io m (normal_device p.bus p.dev p.func) 0 (omega arith) s bits in
      (
        ap (λ r. clear_bits 64 r.value 0xf) read ∙ clear_bits-low 60 4 _ (omega arith) ∙ sym held,
        same,
      )
  base_lem p s base (low, high, in_range, inr (bits, held)) =
      let (read, same) =
        read_bar-64 (normal_device p.bus p.dev p.func) in_range 0 (omega arith) io m s low high
          bits in
      (
        ap (λ r. clear_bits 64 r.value 0xf) read ∙ clear_bits-low 60 4 _ (omega arith) ∙ sym held,
        same,
      )

  -- The memory behind the set-up of the command ring, and behind that of the event ring and the
  -- start of the controller.
  abbrev pub ring_set : ℕ → Memory → Memory
  ring_set base mem = with_ring io frame (at_base base mem) mem

  abbrev pub running : ℕ → Memory → Memory
  running base mem =
      Xhci.initialize (at_base base mem)
        (EventRing.initialize (interrupter_at base (ring_set base mem)) (ring_set base mem)).1

  running_lem :
      (base : ℕ) (mem : Memory) → started io frame (at_base base mem) mem ≡ running base mem
  running_lem base mem =
      ap (λ r. Xhci.initialize (at_base base mem) (EventRing.initialize r (ring_set base mem)).1)
        (interrupter_lem (at_base base mem) (ring_set base mem) refl)

  -- Against a controller that never changes memory of its own, over ports that follow the PCI
  -- configuration mechanism: if entry `i` of the device table is the first of class 0c.03.30, its
  -- first base address register (32 or 64 bits) holds `base`, the interrupter 0 that RTSOFF leads
  -- to names a well-formed event ring once the command ring is set, and none of the device
  -- contexts that DCBAAP and CONFIG name is there, `Xhci` ends with any fuel above 0; memory is
  -- that behind the set-up of the command ring, `EventRing.initialize` and `Xhci.initialize`
  -- without a further write, bit 0 of USBCMD is 1 in the operational registers that CAPLENGTH
  -- leads to, and table and configuration registers are as they were.
  pub xhci_quiet :
      (fuel argc i base erst n : ℕ) (bases sizes : ℕ → ℕ) (argv : List (List ℕ)) (w : Machine State)
      → 0 < fuel
      → IsFirstXhci i w.devices
      → HoldsBase (device_at w.devices i) w.ports base
      → let op = u64 (base + read8 w.memory base) in
        let m₁ = ring_set base w.memory in
        let m₂ = running base w.memory in
        IsReady (interrupter_at base m₁) erst n bases sizes m₁
        → NoContexts io frame (contexts_at op m₂) m₂
        → (w' : Machine State) × (xhci io (idle io frame) frame fuel argc argv w
            ≡ Outcome.done (tt, w'))
          × (w'.memory ≡ m₂)
          × (read_32 w'.memory (op + Xhci.usbcmd) % 2 ≡ 1)
          × (w'.devices ≡ w.devices)
          × ((b : ℕ) → m.reg w'.ports b ≡ m.reg w.ports b)
  xhci_quiet fuel argc i base erst n bases sizes argv w some_fuel first holds ready absent =
      let p = device_at w.devices i in
      let (address, same) = base_lem p w.ports base holds in
      let c = at_base base w.memory in
      let found : controller_of io frame p w.ports w.memory ≡ c =
        ap (λ b. Xhci.controller b w.memory) address ∙ controller_lem base w.memory in
      let regs = interrupter_lem c (ring_set base w.memory) refl in
      let after : started io frame (controller_of io frame p w.ports w.memory) w.memory
          ≡ running base w.memory =
        ap (λ x. started io frame x w.memory) found ∙ running_lem base w.memory in
      let (ps, ran, runs) =
        quiet_run io frame fuel argc i erst n bases sizes argv w some_fuel
          (λ e. absurd (omega (arith, first.in_table))) (find_index-IsFirstXhci i w.devices first)
          (rw (found, regs) ready)
          (rw (found, running_lem base w.memory, contexts_lem c (running base w.memory)) absent) in
      let op = u64 (base + read8 w.memory base) in
      let bit : read_32 (started io frame c w.memory) (op + 0) % 2 ≡ 1 =
        subst (λ x. read_32 (started io frame x w.memory) (x.op + 0) % 2 ≡ 1) found runs in
      (
        _,
        ran,
        after,
        subst (λ t. read_32 t (op + 0) % 2 ≡ 1) (sym (ap (λ x. started io frame x w.memory) found))
            bit,
        refl,
        same,
      )
