-- ===== src/Tests/Pcis/Usbs.antt =====
-- command.cpp, Xhci, against registers of a controller that does nothing of its own.
use seccamp_os.Base.{
  ℕ, zero, suc, ◌%◌, ◌<◌, ◌≡◌, refl, sym, subst, arith, inl, inr, [], ◌∷◌, Memory, read32, write32,
  write8, replicate, ◌==◌, if◌then◌else◌,
}
use seccamp_os.Bitutil.{clear_bits}
use seccamp_os.Libc.{memset}
use seccamp_os.Register.{read_32, write_32, read_64, write_access32, write_64}
use seccamp_os.Pci.Scan.{ScanCallbackParam}
use seccamp_os.EventRing
use seccamp_os.EventRing.Start.{IsReady}
use seccamp_os.Xhci
use seccamp_os.Command.{device_at, blank}
use seccamp_os.Command.Effects.{DeviceTable, Machine, Outcome}
use seccamp_os.Command.Usb.{Frame}
use seccamp_os.Command.Usb.Drive.{xhci}
use seccamp_os.Command.Usb.Idle.{idle}
use seccamp_os.Command.Usb.Located.{
  IsFirstXhci, HasXhciClass, interrupter_at, contexts_at, ring_set, running, xhci_quiet,
}
use seccamp_os.Command.Usb.Quiet.{NoContexts}
use seccamp_os.Tests.Pcis.{Latch, configuration, bar_stored, mechanism, with_bar}

abbrev frame : Frame
frame = record { cr_buf = 0x5000; input_context = 0x5100; trb = 0x5200 }

abbrev usb_card : ScanCallbackParam
usb_card = record blank { bus = 1; dev = 4; base_class = 0x0c; sub_class = 0x03; interface = 0x30 }

-- Another controller stands behind the first.
abbrev devices : DeviceTable
devices = record {
  pci_devices = blank ∷ usb_card ∷ record usb_card { dev = 5 } ∷ replicate 29 blank;
  num_pci_devices = 3;
}

-- The controller's registers are at 0xfebc0000, its operational registers 0x20 bytes behind that
-- and its interrupters at 0xfebc1020. Interrupter 0 has a table of one segment at 0x2000, which
-- has two TRBs at 0x3000. One device context is enabled; its address, at 0x6000, is 0.
abbrev memory : Memory
memory = λ a.
    if a == 0xfebc0000
    then 0x20
    else (if a == 0xfebc0019
        then 0x10
        else (if a == 0xfebc0051
            then 0x60
            else (if a == 0xfebc0058
                then 1
                else (if a == 0xfebc1028
                    then 1
                    else (if a == 0xfebc1031
                        then 0x20
                        else (if a == 0x2001 then 0x30 else (if a == 0x2008 then 2 else 0)))))))

abbrev machine : Machine Latch
machine = record { devices = devices; ports = with_bar; memory = memory; printed = [] }

abbrev ready : Memory
ready = ring_set (configuration bar_stored) (mechanism bar_stored) frame 0xfebc0000 memory

interrupter_lem : interrupter_at 0xfebc0000 ready ≡ 0xfebc1020
unfolding memset write_access32 write32 write8 read32
interrupter_lem = refl

begins : (i : ℕ) → i < 1 → EventRing.begin ready 0x2000 i ≡ 0x3000
unfolding memset write_access32 write32 write8 EventRing.begin read_64 read32
begins zero h = refl
begins (suc i) h = absurd (omega arith)

counts : (i : ℕ) → i < 1 → EventRing.size ready 0x2000 i ≡ 2
unfolding memset write_access32 write32 write8 EventRing.size read32
counts zero h = refl
counts (suc i) h = absurd (omega arith)

ready-IsReady : IsReady 0xfebc1020 0x2000 1 (λ _. 0x3000) (λ _. 2) ready
unfolding memset write_access32 write32 write8 clear_bits read_64 read32
ready-IsReady = record {
  segments = record {
    some_segments = omega arith;
    table_fits = omega arith;
    apart = inl (omega arith);
    begins = begins;
    counts = counts;
    aligned = λ i h. refl;
    full = λ i h. omega arith;
    fits = λ i h. omega arith;
  };
  loaded = refl;
  counted = refl;
  registers = inl (omega arith);
  table_apart = λ i h. inr (omega arith);
  registers_apart = λ i h. inl (omega arith);
}

abbrev behind : Memory
behind = running (configuration bar_stored) (mechanism bar_stored) frame 0xfebc0000 memory

abbrev contexts : Xhci.ArrayWrapper
contexts = record { width = 8; array = 0x6000; size = 1 }

contexts_lem : contexts_at 0xfebc0020 behind ≡ contexts
unfolding memset write_access32 write32 write_32 write8 clear_bits read_64 read32 Xhci.initialize
    EventRing.initialize EventRing.write_dequeue_pointer EventRing.clear_segments EventRing.begin
    EventRing.size write_64 read_32
contexts_lem = refl

-- The one device context is not there.
absent_at : (i : ℕ) → i < 1 → read_64 behind (Xhci.element contexts i) ≡ 0
unfolding memset write_access32 write32 write_32 write8 clear_bits read_64 read32 Xhci.initialize
    EventRing.initialize EventRing.write_dequeue_pointer EventRing.clear_segments EventRing.begin
    EventRing.size write_64 read_32 Xhci.interrupter_reg_sets
absent_at zero h = refl
absent_at (suc i) h = absurd (omega arith)

behind-NoContexts :
    NoContexts (configuration bar_stored) frame (contexts_at 0xfebc0020 behind) behind
behind-NoContexts =
    subst (λ c. NoContexts (configuration bar_stored) frame c behind) (sym contexts_lem) absent_at

usb_card-IsFirstXhci : IsFirstXhci 1 devices
usb_card-IsFirstXhci = record {
  in_table = omega arith;
  matches = (refl, refl, refl);
  others = others;
}
  where
    others : (j : ℕ) → j < 1 → ¬ HasXhciClass (device_at devices j)
    others zero h (base_class, _, _) = absurd (omega arith)
    others (suc j) h _ = absurd (omega arith)

xhci_quiet_example :
    (w' : Machine Latch) × (xhci
        (configuration bar_stored)
        (idle (configuration bar_stored) frame)
        frame
        1
        1
        []
        machine
      ≡ Outcome.done (tt, w'))
    × (w'.memory ≡ behind)
    × (read_32 w'.memory 0xfebc0020 % 2 ≡ 1)
    × (w'.devices ≡ devices)
    × ((b : ℕ) → w'.ports.regs b ≡ 0xfebc0008)
unfolding mechanism
xhci_quiet_example =
    xhci_quiet (configuration bar_stored) (mechanism bar_stored) frame 1 1 1 0xfebc0000 0x2000 1
      (λ _. 0x3000) (λ _. 2) [] machine (omega arith) usb_card-IsFirstXhci
      (omega arith, omega arith, (omega arith, omega arith, omega arith), inl (refl, refl))
      (rw interrupter_lem ready-IsReady) behind-NoContexts
