-- ===== src/Command/Usb.antt =====
-- command.cpp: Xhci, which drives an xHCI controller. Controller and processor share the memory:
-- before each access of the command to it the controller may have done its own work.
pub mod Drive
pub mod Idle
pub mod Quiet
pub mod Located
pub mod Answered
pub mod Endpoints
pub mod Served
pub mod PortStatus
pub mod Buffers
pub mod Polling
use seccamp_os.Base.{
  ℕ, zero, suc, ◌+◌, ◌*◌, ◌-◌, ◌/◌, ◌%◌, ◌^◌, Bool, Option, none, some, List, [], ◌∷◌, ◌++◌, ◌==◌,
  ◌&&◌, ltb, if◌then◌else◌, Memory, read32, write32, bit_and, bit_or, ◌>>>◌, u32, u64,
}
use seccamp_os.Ports.{Ports}
use seccamp_os.Libc.{memset, memcpy}
use seccamp_os.Bitutil.{clear_bits}
use seccamp_os.Register.{read_32, write_32, read_access32, write_access32}
use seccamp_os.Pci.Device.{normal_device, read_bar}
use seccamp_os.Pci.Scan.{ScanCallbackParam}
use seccamp_os.EventRing
use seccamp_os.Xhci
use seccamp_os.Xhci.Contexts.{
  Dwords, SlotContext, slot_context, EndpointContext, endpoint_context, trb,
  ConfigureEndpointCommandTrb, command_dwords,
}
use seccamp_os.Command.{device_at, find_index, find_devices}
use seccamp_os.Command.Effects.{
  Printed, UsbLine, Machine, Outcome, Run, pure, ◌>>=◌, ◌>>◌, at_ports, print,
}

-- The addresses of local variables that the controller or `printf` is given.
pub record Frame : Type 0 where
  pub cr_buf : ℕ
  pub input_context : ℕ
  pub trb : ℕ

abbrev pub is_xhci : ScanCallbackParam → Bool
is_xhci p = (p.base_class == 0x0c) && (p.sub_class == 0x03) && (p.interface == 0x30)

abbrev pub dwords_at : Memory → ℕ → Dwords
dwords_at m p i = read32 m (u64 (p + 4 * i))

-- The TRB at the dequeue pointer, `er_mgr.Front()`.
unfoldable pub front : ℕ → Memory → Dwords
front regs m = dwords_at m (EventRing.read_dequeue_pointer regs m)

abbrev pub line : {S : Type 0} → UsbLine → List ℕ → Run S (Unit {0})
line l values = print (Printed.usb_line l values)

-- `cr_buf[0].dwords[i] = cmd.dwords[i]` for each `i`.
unfoldable pub put_command : ℕ → Dwords → Memory → Memory
put_command p d m =
    write32 (write32 (write32 (write32 m p (d 0)) (p + 4) (d 1)) (p + 8) (d 2)) (p + 12) (d 3)

-- The command for a slot; the cycle bit of the command ring is 1.
abbrev pub command_for : ℕ → ℕ → ConfigureEndpointCommandTrb
command_for input_context slot_id = record {
  input_context_pointer = input_context >>> 4;
  cycle_bit = 1;
  deconfigure = 0;
  trb_type = 12;
  slot_id = slot_id;
}

-- `InputContext` for a device context: endpoint 1 enabled and copied.
unfoldable pub fill_input_context : ℕ → ℕ → Memory → Memory
fill_input_context input_context dcaddr m =
    let cleared = memset input_context 0 1056 m in
    let flagged =
      write32 cleared (input_context + 4) (bit_or (read32 cleared (input_context + 4)) (2 ^ 2)) in
    memcpy (input_context + 64 + 32 * 1) (dcaddr + 32 + 32 * 1) 32 flagged

module _ (io : Ports) (work : io.State → Memory → io.State × Memory) (frame : Frame) where
  open io use {State}

  -- An access to memory, behind what the controller has done.
  abbrev pub access : {A : Type 0} → (Memory → A × Memory) → Run State A
  access f w =
      let (s, m) = work w.ports w.memory in
      let (a, m') = f m in Outcome.done (a, record w { ports = s; memory = m' })

  abbrev pub observe : {A : Type 0} → (Memory → A) → Run State A
  observe f = access (λ m. (f m, m))

  abbrev pub change : (Memory → Memory) → Run State (Unit {0})
  change f = access (λ m. (tt, f m))

  unfoldable pub print_registers : Xhci.Controller → Run State (Unit {0})
  print_registers xhc = do
    caplength ← observe (Xhci.read_caplength xhc.cap)
    hciversion ← observe (Xhci.read_hciversion xhc.cap)
    dboff ← observe (λ m. read_32 m (xhc.cap + Xhci.dboff))
    rtsoff ← observe (λ m. read_32 m (xhc.cap + Xhci.rtsoff))
    hcsparams1 ← observe (λ m. read_32 m (xhc.cap + Xhci.hcsparams1))
    hccparams1 ← observe (λ m. read_32 m (xhc.cap + Xhci.hccparams1))
    line UsbLine.capability_registers
        (caplength ∷ hciversion ∷ dboff ∷ rtsoff ∷ hcsparams1 ∷ hccparams1 ∷ [])
    usbcmd ← observe (λ m. read_32 m (xhc.op + Xhci.usbcmd))
    usbsts ← observe (λ m. read_32 m (xhc.op + Xhci.usbsts))
    dcbaap ← observe (λ m. read_access32 m (xhc.op + Xhci.dcbaap))
    config ← observe (λ m. read_32 m (xhc.op + Xhci.config))
    line UsbLine.operational_registers (usbcmd ∷ usbsts ∷ dcbaap ∷ config ∷ [])

  -- `while (er_mgr.HasFront())`, which pops nothing.
  unfoldable pub print_events : ℕ → ℕ → EventRing.Manager → Run State (Unit {0})
  print_events zero regs er = λ _. Outcome.out_of_fuel
  print_events (suc fuel) regs er =
      let rest = print_events fuel regs er in
      (do
        has_front ← observe (EventRing.has_front regs er)
        if has_front
            then (do
              p ← observe (EventRing.read_dequeue_pointer regs)
              d0 ← observe (λ m. dwords_at m p 0)
              d1 ← observe (λ m. dwords_at m p 1)
              d2 ← observe (λ m. dwords_at m p 2)
              d3 ← observe (λ m. dwords_at m p 3)
              trb_type ← observe (λ m. (trb (dwords_at m p)).trb_type)
              line UsbLine.event (d0 ∷ d1 ∷ d2 ∷ d3 ∷ trb_type ∷ [])
              rest)
            else pure tt)

  -- The loop over `PortRegSets` from port `i` on.
  unfoldable pub print_ports : Xhci.ArrayWrapper → ℕ → ℕ → Run State (Unit {0})
  print_ports ports zero i = pure tt
  print_ports ports (suc rounds) i = do
    status ← observe (λ m. read_32 m (Xhci.element ports i))
    print (Printed.char (b'0' + bit_and status 1 + 2 * bit_and (status >>> 17) 1))
    print_ports ports rounds (i + 1)

  -- The loop over the segment table from entry `i` on.
  unfoldable pub print_segments : EventRing.Manager → ℕ → ℕ → Run State (Unit {0})
  print_segments er zero i = pure tt
  print_segments er (suc rounds) i = do
    base ← observe (λ m. EventRing.begin m er.erst i)
    size ← observe (λ m. EventRing.size m er.erst i)
    line UsbLine.segment (i ∷ base ∷ size ∷ [])
    print_segments er rounds (i + 1)

  -- `ir0[i] | (static_cast<uint64_t>(ir0[i + 1]) << 32)`
  abbrev pub pair_at : ℕ → ℕ → Memory → ℕ
  pair_at ir0 i m = bit_or (read32 m (ir0 + 4 * i)) (read32 m (ir0 + 4 * (i + 1)) * 2 ^ 32)

  unfoldable pub print_interrupter : Xhci.Controller → Run State (Unit {0})
  print_interrupter xhc = do
    rtsoff ← observe (λ m. read_32 m (xhc.cap + Xhci.rtsoff))
    let ir0 = u64 (xhc.mmio_base + rtsoff + 0x20)
    erstsz ← observe (λ m. read32 m (ir0 + 4 * 2))
    erstba ← observe (pair_at ir0 4)
    erdp ← observe (pair_at ir0 6)
    line UsbLine.interrupter (erstsz ∷ erstba ∷ erdp ∷ [])

  -- Fields of the slot context and of the endpoint contexts of the device context at `dcaddr`.
  abbrev pub slot_at : ℕ → Memory → SlotContext
  slot_at dcaddr m = slot_context (dwords_at m dcaddr)

  abbrev pub endpoint_at : ℕ → ℕ → Memory → EndpointContext
  endpoint_at dcaddr i m = endpoint_context (dwords_at m (dcaddr + 32 + 32 * i))

  -- The loop over the endpoints of a device context from endpoint `i` on. Each test reads the
  -- number of entries again.
  unfoldable pub print_endpoints : ℕ → ℕ → ℕ → Run State (Unit {0})
  print_endpoints dcaddr zero i = λ _. Outcome.out_of_fuel
  print_endpoints dcaddr (suc rounds) i =
      let rest = print_endpoints dcaddr rounds (i + 1) in
      (do
        entries ← observe (λ m. (slot_at dcaddr m).context_entries)
        if ltb i entries
            then (do
              ep_state ← observe (λ m. (endpoint_at dcaddr i m).ep_state)
              ep_type ← observe (λ m. (endpoint_at dcaddr i m).ep_type)
              max_burst_size ← observe (λ m. (endpoint_at dcaddr i m).max_burst_size)
              max_packet_size ← observe (λ m. (endpoint_at dcaddr i m).max_packet_size)
              line UsbLine.endpoint (i ∷ ep_state ∷ ep_type ∷ max_burst_size ∷ max_packet_size ∷ [])
              rest)
            else pure tt)

  -- A line with `USBCMD & 1` and `(CRCR >> 3) & 1`.
  unfoldable pub print_running : Xhci.Controller → UsbLine → Run State (Unit {0})
  print_running xhc l = do
    usbcmd ← observe (λ m. read_32 m (xhc.op + Xhci.usbcmd))
    crcr ← observe (λ m. read_access32 m (xhc.op + Xhci.crcr))
    line l (bit_and usbcmd 1 ∷ bit_and (crcr >>> 3) 1 ∷ [])

  -- `while ((op_reg.CRCR.Read() & 8) == 0);`
  unfoldable pub wait_running : ℕ → Xhci.Controller → Run State (Unit {0})
  wait_running zero xhc = λ _. Outcome.out_of_fuel
  wait_running (suc fuel) xhc =
      let rest = wait_running fuel xhc in
      (do
        crcr ← observe (λ m. read_access32 m (xhc.op + Xhci.crcr))
        if bit_and crcr 8 == 0 then rest else pure tt)

  -- `while (!er_mgr.HasFront());`
  unfoldable pub wait_front : ℕ → ℕ → EventRing.Manager → Run State (Unit {0})
  wait_front zero regs er = λ _. Outcome.out_of_fuel
  wait_front (suc fuel) regs er =
      let rest = wait_front fuel regs er in
      (do has_front ← observe (EventRing.has_front regs er); if has_front then pure tt else rest)
