-- ===== src/Command/Usb/Quiet.antt =====
-- command.cpp: Xhci against a controller that does nothing, with no device context.
use seccamp_os.Base.{
  ℕ, zero, suc, ◌+◌, ◌%◌, ◌<◌, ◌≡◌, ◌≢◌, refl, ◌∙◌, arith, some, List, [], ◌∷◌, ◌++◌, Memory,
  bit_or,
}
use seccamp_os.Ports.{Ports}
use seccamp_os.Libc.{memset}
use seccamp_os.Bitutil.{clear_bits}
use seccamp_os.Register.{read_32, read_64, read_access32, write_access32}
use seccamp_os.Pci.Device.{normal_device, read_bar}
use seccamp_os.Pci.Scan.{ScanCallbackParam}
use seccamp_os.EventRing
use seccamp_os.EventRing.Start.{IsReady, initialize-StandsAt}
use seccamp_os.Xhci
use seccamp_os.Xhci.Start.{initialize_lem}
use seccamp_os.Command.{device_at, find_index, find_devices}
use seccamp_os.Command.Effects.{Printed, UsbLine, Machine, Outcome, pure, ◌>>◌, bind_done}
use seccamp_os.Command.Search.{find_devices-again}
use seccamp_os.Command.Usb.{Frame, is_xhci, print_events, print_registers}
use seccamp_os.Command.Usb.Idle.{
  idle, print_events-quiet, report_ports-OnlyPrints, report_ring-OnlyPrints,
}
use seccamp_os.Command.Usb.Drive.{
  visit_context, visit_contexts, set_command_ring, start_events, report_ports, report_ring,
  visit_all, run_controller, drive, drive_found, xhci,
}

module _ (io : Ports) (frame : Frame) where
  open io use {State}

  -- No device context is there.
  abbrev pub NoContexts : Xhci.ArrayWrapper → Memory → Type 0
  NoContexts contexts m = (i : ℕ) → i < contexts.size → read_64 m (Xhci.element contexts i) ≡ 0

  visit_contexts-none :
      (fuel regs rounds slot_id : ℕ) (xhc : Xhci.Controller)
      (doorbells contexts : Xhci.ArrayWrapper) (er : EventRing.Manager) (w : Machine State)
      → ((i : ℕ) → i < slot_id + rounds → read_64 w.memory (Xhci.element contexts i) ≡ 0)
      → visit_contexts io (idle io frame) frame fuel xhc doorbells regs contexts rounds slot_id er w
        ≡ Outcome.done (tt, w)
  unfolding visit_contexts visit_context
  visit_contexts-none fuel regs zero slot_id xhc doorbells contexts er w absent = refl
  visit_contexts-none fuel regs (suc rounds) slot_id xhc doorbells contexts er w absent =
      rw (absent slot_id (omega arith)) (
        visit_contexts-none fuel regs rounds (slot_id + 1) xhc doorbells contexts er w
          (λ i h. absent i (omega arith)))

  run_controller-quiet :
      (fuel regs : ℕ) (xhc : Xhci.Controller) (doorbells : Xhci.ArrayWrapper)
      (er : EventRing.Manager) (w : Machine State)
      → NoContexts
          (Xhci.device_context_addresses xhc (Xhci.initialize xhc w.memory))
          (Xhci.initialize xhc w.memory)
      → (ps : List Printed) × (run_controller io (idle io frame) frame fuel xhc doorbells regs er w
          ≡ Outcome.done (tt, record w { memory = Xhci.initialize xhc w.memory; printed = ps }))
  unfolding run_controller visit_all
  run_controller-quiet fuel regs xhc doorbells er w absent =
      let w₁ = record w { memory = Xhci.initialize xhc w.memory } in
      let (ps, ports) = report_ports-OnlyPrints io frame xhc w₁ in
      let w₂ = record w₁ { printed = ps } in
      let (qs, ring) = report_ring-OnlyPrints io frame xhc er w₂ in
      let w₃ = record w₁ { printed = qs } in
      let contexts = Xhci.device_context_addresses xhc w₁.memory in
      let visit = visit_all io (idle io frame) frame fuel xhc doorbells regs er in
      (
        qs,
        bind_done (report_ports io (idle io frame) frame xhc)
              (λ _. report_ring io (idle io frame) frame xhc er >> visit) w₁ ports
            ∙ bind_done (report_ring io (idle io frame) frame xhc er) (λ _. visit) w₂ ring
            ∙ visit_contexts-none fuel regs contexts.size 0 xhc doorbells contexts er w₃
                (λ i h. absent i (omega arith)),
      )

  start_events-quiet :
      (fuel regs erst n : ℕ) (base sizes : ℕ → ℕ) (w : Machine State)
      → 0 < fuel
      → IsReady regs erst n base sizes w.memory
      → start_events io (idle io frame) frame fuel regs w ≡ (
          let (er, m) = EventRing.initialize regs w.memory in
          Outcome.done (
            er,
            record w {
              memory = m;
              printed = w.printed ++ (Printed.usb_line UsbLine.has_no_element [] ∷ []);
            },
          ))
  unfolding start_events
  start_events-quiet fuel regs erst n base sizes w some_fuel ready =
      let (er, m) = EventRing.initialize regs w.memory in
      let (_, _, _, none_there) = initialize-StandsAt regs erst n base sizes w.memory ready in
      let w₁ = record w {
        memory = m;
        printed = w.printed ++ (Printed.usb_line UsbLine.has_no_element [] ∷ []);
      } in
      rw none_there (
        bind_done (print_events io (idle io frame) frame fuel regs er) (λ _. pure er) w₁
          (print_events-quiet io frame fuel regs er w₁ some_fuel none_there))

  -- The memory behind the set-up of the command ring, and the stages behind it.
  abbrev pub with_ring : Xhci.Controller → Memory → Memory
  with_ring xhc m =
      write_access32 (bit_or frame.cr_buf 1) (memset frame.cr_buf 0 128 m) (xhc.op + Xhci.crcr)

  abbrev pub interrupter_0 : Xhci.Controller → Memory → ℕ
  interrupter_0 xhc m = Xhci.element (Xhci.interrupter_reg_sets xhc (with_ring xhc m)) 0

  abbrev pub with_events : Xhci.Controller → Memory → Memory
  with_events xhc m = (EventRing.initialize (interrupter_0 xhc m) (with_ring xhc m)).1

  abbrev pub started : Xhci.Controller → Memory → Memory
  started xhc m = Xhci.initialize xhc (with_events xhc m)

  -- The controller behind the first base address register of a device.
  abbrev pub controller_of : ScanCallbackParam → State → Memory → Xhci.Controller
  controller_of p s m =
      Xhci.controller
        (clear_bits 64 (read_bar io (normal_device p.bus p.dev p.func) 0 s).0.value 0xf) m

  -- The lines before those about the event ring.
  abbrev first_lines : Xhci.Controller → Memory → List Printed → List Printed
  first_lines xhc m ps =
      ((ps
          ++ (Printed.usb_line UsbLine.capability_registers (
                Xhci.read_caplength xhc.cap m
                ∷ Xhci.read_hciversion xhc.cap m
                ∷ read_32 m (xhc.cap + Xhci.dboff)
                ∷ read_32 m (xhc.cap + Xhci.rtsoff)
                ∷ read_32 m (xhc.cap + Xhci.hcsparams1)
                ∷ read_32 m (xhc.cap + Xhci.hccparams1)
                ∷ [])
              ∷ []))
        ++ (Printed.usb_line UsbLine.operational_registers (
              read_32 m (xhc.op + Xhci.usbcmd)
              ∷ read_32 m (xhc.op + Xhci.usbsts)
              ∷ read_access32 m (xhc.op + Xhci.dcbaap)
              ∷ read_32 m (xhc.op + Xhci.config)
              ∷ [])
            ∷ []))
      ++ (Printed.usb_line UsbLine.crcr_written (frame.cr_buf ∷ []) ∷ [])

  drive-quiet :
      (fuel erst n : ℕ) (base sizes : ℕ → ℕ) (p : ScanCallbackParam) (w : Machine State)
      → 0 < fuel
      → IsReady
          (interrupter_0 (controller_of p w.ports w.memory) w.memory)
          erst
          n
          base
          sizes
          (with_ring (controller_of p w.ports w.memory) w.memory)
      → NoContexts
          (Xhci.device_context_addresses
            (controller_of p w.ports w.memory)
            (started (controller_of p w.ports w.memory) w.memory))
          (started (controller_of p w.ports w.memory) w.memory)
      → (ps : List Printed) × (drive io (idle io frame) frame fuel p w
          ≡ Outcome.done (
            tt,
            record w {
              ports = (read_bar io (normal_device p.bus p.dev p.func) 0 w.ports).1;
              memory = started (controller_of p w.ports w.memory) w.memory;
              printed = ps;
            },
          ))
  unfolding drive set_command_ring print_registers
  drive-quiet fuel erst n base sizes p w some_fuel ready absent =
      let xhc = controller_of p w.ports w.memory in
      let regs = interrupter_0 xhc w.memory in
      let er = (EventRing.initialize regs (with_ring xhc w.memory)).0 in
      let doorbells = Xhci.doorbell_registers xhc (with_ring xhc w.memory) in
      let w₂ = record w {
        ports = (read_bar io (normal_device p.bus p.dev p.func) 0 w.ports).1;
        memory = with_events xhc w.memory;
        printed =
            first_lines xhc w.memory w.printed ++ (Printed.usb_line UsbLine.has_no_element [] ∷ []);
      } in
      let (ps, ran) = run_controller-quiet fuel regs xhc doorbells er w₂ absent in
      (
        ps,
        bind_done (start_events io (idle io frame) frame fuel regs)
              (λ r. run_controller io (idle io frame) frame fuel xhc doorbells regs r) _
              (start_events-quiet fuel regs erst n base sizes _ some_fuel ready)
            ∙ ran,
      )

  pub quiet_run :
      (fuel argc i erst n : ℕ) (base sizes : ℕ → ℕ) (argv : List (List ℕ)) (w : Machine State)
      → 0 < fuel
      → w.devices.num_pci_devices ≢ 0
      → find_index is_xhci w.devices w.devices.num_pci_devices 0 ≡ some i
      → let p = device_at w.devices i in
        let xhc = controller_of p w.ports w.memory in
        IsReady (interrupter_0 xhc w.memory) erst n base sizes (with_ring xhc w.memory)
        → NoContexts
            (Xhci.device_context_addresses xhc (started xhc w.memory))
            (started xhc w.memory)
        → (ps : List Printed) × (xhci io (idle io frame) frame fuel argc argv w
            ≡ Outcome.done (
              tt,
              record w {
                ports = (read_bar io (normal_device p.bus p.dev p.func) 0 w.ports).1;
                memory = started xhc w.memory;
                printed = ps;
              },
            ))
          × (read_32 (started xhc w.memory) (xhc.op + Xhci.usbcmd) % 2 ≡ 1)
  unfolding xhci drive_found
  quiet_run fuel argc i erst n base sizes argv w some_fuel scanned found ready absent =
      let p = device_at w.devices i in
      let xhc = controller_of p w.ports w.memory in
      let line = Printed.usb_line UsbLine.found (p.bus ∷ p.dev ∷ p.func ∷ []) in
      let (ps, ran) =
        drive-quiet fuel erst n base sizes p (record w { printed = w.printed ++ (line ∷ []) })
          some_fuel ready absent in
      (
        ps,
        bind_done (find_devices io fuel) (λ _. drive_found io (idle io frame) frame fuel) w
              (find_devices-again io fuel w scanned)
            ∙ rw (drive_found, found) ran,
        omega (arith, (initialize_lem xhc (with_events xhc w.memory)).0),
      )
