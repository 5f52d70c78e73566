-- ===== src/Command/Usb/Drive.antt =====
-- command.cpp: Xhci as a whole.
use seccamp_os.Base.{
  ℕ, zero, suc, ◌+◌, none, some, List, [], ◌∷◌, ◌==◌, if◌then◌else◌, Memory, bit_or,
}
use seccamp_os.Ports.{Ports}
use seccamp_os.Libc.{memset}
use seccamp_os.Bitutil.{clear_bits}
use seccamp_os.Register.{write_32, read_64, read_access32, write_access32}
use seccamp_os.Pci.Device.{normal_device, read_bar}
use seccamp_os.Pci.Scan.{ScanCallbackParam}
use seccamp_os.EventRing
use seccamp_os.Xhci
use seccamp_os.Xhci.Contexts.{trb, command_dwords}
use seccamp_os.Command.{device_at, find_index, find_devices}
use seccamp_os.Command.Effects.{Printed, UsbLine, Run, pure, ◌>>=◌, ◌>>◌, at_ports, print}
use seccamp_os.Command.Usb.{
  Frame, is_xhci, front, line, slot_at, put_command, command_for, fill_input_context, access,
  observe, change, print_registers, print_events, print_ports, print_segments, print_interrupter,
  print_endpoints, print_running, wait_running, wait_front,
}

-- The number of entries has five bits, so that the loop over the endpoints ends in 32 rounds.
abbrev pub endpoint_rounds : ℕ
endpoint_rounds = 32

module _ (io : Ports) (work : io.State → Memory → io.State × Memory) (frame : Frame) where
  open io use {State}

  abbrev see : {A : Type 0} → (Memory → A) → Run State A
  see = observe io work frame

  abbrev alter : (Memory → Memory) → Run State (Unit {0})
  alter = change io work frame

  -- The event is taken off the ring.
  unfoldable pub take_event : ℕ → EventRing.Manager → Run State EventRing.Manager
  take_event regs er = do
    completed ← see (λ m. trb (front regs m))
    next ← access io work frame (EventRing.pop regs er)
    line UsbLine.completed (completed.trb_type ∷ frame.trb ∷ [])
    pure next

  -- From the time when CRR is seen.
  unfoldable pub await_event :
      ℕ → Xhci.Controller → ℕ → EventRing.Manager → Run State EventRing.Manager
  unfolding take_event
  await_event fuel xhc regs er = do
    crcr ← see (λ m. read_access32 m (xhc.op + Xhci.crcr))
    line UsbLine.crcr (crcr ∷ [])
    print_running io work frame xhc UsbLine.crr_set
    cycle_bit ← see (λ m. (trb (front regs m)).cycle_bit)
    line UsbLine.waiting (cycle_bit ∷ [])
    wait_front io work frame fuel regs er
    take_event regs er

  -- What the controller is told about a device context, and what comes back.
  unfoldable pub send_command :
      ℕ
      → Xhci.Controller
      → Xhci.ArrayWrapper
      → ℕ
      → ℕ
      → ℕ
      → EventRing.Manager
      → Run State EventRing.Manager
  unfolding await_event
  send_command fuel xhc doorbells regs dcaddr slot_id er = do
    alter (fill_input_context frame.input_context dcaddr)
    alter (put_command frame.cr_buf (command_dwords (command_for frame.input_context slot_id)))
    line UsbLine.command_put (frame.cr_buf ∷ [])
    print_running io work frame xhc UsbLine.doorbell_before
    alter (λ m. write_32 0 m (Xhci.element doorbells 0))
    print_running io work frame xhc UsbLine.doorbell_after
    wait_running io work frame fuel xhc
    await_event fuel xhc regs er

  -- One round of the loop over the device contexts.
  unfoldable pub visit_context :
      ℕ
      → Xhci.Controller
      → Xhci.ArrayWrapper
      → ℕ
      → ℕ
      → ℕ
      → EventRing.Manager
      → Run State EventRing.Manager
  unfolding send_command
  visit_context fuel xhc doorbells regs dcaddr slot_id er = if dcaddr == 0 then pure er else (do
    hub ← see (λ m. (slot_at io work frame dcaddr m).hub)
    context_entries ← see (λ m. (slot_at io work frame dcaddr m).context_entries)
    slot_state ← see (λ m. (slot_at io work frame dcaddr m).slot_state)
    usb_device_address ← see (λ m. (slot_at io work frame dcaddr m).usb_device_address)
    line UsbLine.device_context
        (slot_id ∷ hub ∷ context_entries ∷ slot_state ∷ usb_device_address ∷ [])
    print_endpoints io work frame dcaddr endpoint_rounds 0
    send_command fuel xhc doorbells regs dcaddr slot_id er)

  -- The loop from slot `slot_id` on.
  unfoldable pub visit_contexts :
      ℕ
      → Xhci.Controller
      → Xhci.ArrayWrapper
      → ℕ
      → Xhci.ArrayWrapper
      → ℕ
      → ℕ
      → EventRing.Manager
      → Run State (Unit {0})
  unfolding visit_context
  visit_contexts fuel xhc doorbells regs contexts zero slot_id er = pure tt
  visit_contexts fuel xhc doorbells regs contexts (suc rounds) slot_id er = do
    dcaddr ← see (λ m. read_64 m (Xhci.element contexts slot_id))
    next ← visit_context fuel xhc doorbells regs dcaddr slot_id er
    visit_contexts fuel xhc doorbells regs contexts rounds (slot_id + 1) next

  -- The command ring of eight TRBs.
  unfoldable pub set_command_ring : Xhci.Controller → Run State (Unit {0})
  set_command_ring xhc = do
    alter (memset frame.cr_buf 0 128)
    alter (λ m. write_access32 (bit_or frame.cr_buf 1) m (xhc.op + Xhci.crcr))
    line UsbLine.crcr_written (frame.cr_buf ∷ [])

  -- The event ring of interrupter 0.
  unfoldable pub start_events : ℕ → ℕ → Run State EventRing.Manager
  start_events fuel regs = do
    er ← access io work frame (EventRing.initialize regs)
    has_front ← see (EventRing.has_front regs er)
    line (if has_front then UsbLine.has_element else UsbLine.has_no_element) []
    print_events io work frame fuel regs er
    pure er

  unfoldable pub report_ports : Xhci.Controller → Run State (Unit {0})
  report_ports xhc = do
    line UsbLine.port_status []
    ports ← see (Xhci.port_reg_sets xhc)
    print_ports io work frame ports ports.size 0
    print (Printed.char 0x0a)

  unfoldable pub report_ring : Xhci.Controller → EventRing.Manager → Run State (Unit {0})
  report_ring xhc er = do
    line UsbLine.segment_table (er.erst ∷ er.erst_size ∷ [])
    print_segments io work frame er er.erst_size 0
    print_interrupter io work frame xhc

  unfoldable pub visit_all :
      ℕ → Xhci.Controller → Xhci.ArrayWrapper → ℕ → EventRing.Manager → Run State (Unit {0})
  unfolding visit_contexts
  visit_all fuel xhc doorbells regs er = do
    contexts ← see (Xhci.device_context_addresses xhc)
    visit_contexts fuel xhc doorbells regs contexts contexts.size 0 er

  -- `Xhci` from the start of the controller on.
  unfoldable pub run_controller :
      ℕ → Xhci.Controller → Xhci.ArrayWrapper → ℕ → EventRing.Manager → Run State (Unit {0})
  unfolding report_ports report_ring visit_all
  run_controller fuel xhc doorbells regs er = do
    alter (Xhci.initialize xhc)
    report_ports xhc
    report_ring xhc er
    visit_all fuel xhc doorbells regs er

  -- `Xhci` from the controller's device on.
  unfoldable pub drive : ℕ → ScanCallbackParam → Run State (Unit {0})
  unfolding set_command_ring start_events run_controller
  drive fuel p = do
    bar ← at_ports (read_bar io (normal_device p.bus p.dev p.func) 0)
    let mmio_base = clear_bits 64 bar.value 0xf
    xhc ← see (Xhci.controller mmio_base)
    print_registers io work frame xhc
    _ ← see (Xhci.max_ports xhc)
    _ ← see (Xhci.max_slots_enabled xhc)
    set_command_ring xhc
    interrupters ← see (Xhci.interrupter_reg_sets xhc)
    doorbells ← see (Xhci.doorbell_registers xhc)
    let regs = Xhci.element interrupters 0
    er ← start_events fuel regs
    run_controller fuel xhc doorbells regs er

  -- The search for the controller, and what is said of it.
  unfoldable pub drive_found : ℕ → Run State (Unit {0})
  unfolding drive find_index
  drive_found fuel w = elim (find_index is_xhci w.devices w.devices.num_pci_devices 0) [
    | none ↦ line UsbLine.no_device [] w
    | some i ↦
        let p = device_at w.devices i in
        (do line UsbLine.found (p.bus ∷ p.dev ∷ p.func ∷ []); drive fuel p) w
  ]

  unfoldable pub xhci : ℕ → ℕ → List (List ℕ) → Run State (Unit {0})
  unfolding find_devices drive_found
  xhci fuel argc argv = do find_devices io fuel; drive_found fuel
