-- ===== src/Command/Usb/PortStatus.antt =====
-- command.cpp: the line of Xhci about the ports, which the controller may change at the same time.
use seccamp_os.Base.{
  ℕ, zero, suc, ◌+◌, ◌*◌, ◌/◌, ◌%◌, ◌^◌, ◌≡◌, sym, ap, ◌∙◌, arith, List, [], ◌∷◌, ◌++◌, append-nil,
  append_assoc, Memory, read8, read32, bit_and, bit_and-low, u64,
}
use seccamp_os.Ports.{Ports}
use seccamp_os.Register.{read_32}
use seccamp_os.Xhci
use seccamp_os.Command.Effects.{Printed, UsbLine, Machine, Outcome, print, bind_done}
use seccamp_os.Command.Usb.{Frame, print_ports}
use seccamp_os.Command.Usb.Drive.{report_ports}
use seccamp_os.Command.Usb.Answered.{later}

-- PORTSC of port `i`, 0x400 bytes behind the operational registers and 16 bytes a port.
abbrev pub portsc : ℕ → ℕ → ℕ
portsc op i = u64 (op + 0x400 + 16 * i)

-- CCS, bit 0, and twice CSC, bit 17, as a digit.
abbrev pub status_digit : ℕ → Printed
status_digit status = Printed.char (0x30 + status % 2 + 2 * (status / 2 ^ 17 % 2))

-- MaxPorts, the last byte of HCSPARAMS1.
count_lem : (m : Memory) (cap : ℕ) → read32 m (cap + 4) / 2 ^ 24 ≡ read8 m (cap + 7)
unfolding read32
count_lem m cap = let place : cap + 4 + 3 ≡ cap + 7 = omega arith in rw place (omega arith)

module _ (io : Ports) (work : io.State → Memory → io.State × Memory) (frame : Frame) where
  open io use {State}

  -- The digits of the ports from `i` on.
  abbrev pub digits : ℕ → ℕ → ℕ → State × Memory → List Printed
  digits op zero i p = []
  digits op (suc rounds) i p =
      let q = later io work frame 1 p in
      status_digit (read32 q.1 (portsc op i)) ∷ digits op rounds (i + 1) q

  print_ports_lem :
      (op size rounds i : ℕ) (w : Machine State)
      → let ports : Xhci.ArrayWrapper = record {
        width = 16;
        array = u64 (op + 0x400);
        size = size;
      } in
        let (s, m) = later io work frame rounds (w.ports, w.memory) in
        print_ports io work frame ports rounds i w
        ≡ Outcome.done (
          tt,
          record w {
            ports = s;
            memory = m;
            printed = w.printed ++ digits op rounds i (w.ports, w.memory);
          },
        )
  unfolding print_ports read_32
  print_ports_lem op size zero i w =
      ap (λ ps. Outcome.done (tt, record w { printed = ps })) (sym (append-nil w.printed))
  print_ports_lem op size (suc rounds) i w =
      let (s, m) = later io work frame 1 (w.ports, w.memory) in
      let (s', m') = later io work frame rounds (s, m) in
      let place : u64 (u64 (op + 0x400) + 16 * i) ≡ portsc op i = omega arith in
      let status = read32 m (portsc op i) in
      let digit : 0x30 + bit_and status 1 + 2 * bit_and (status / 2 ^ 17) 1
          ≡ 0x30 + status % 2 + 2 * (status / 2 ^ 17 % 2) =
        omega (arith, bit_and-low 1 status, bit_and-low 1 (status / 2 ^ 17)) in
      rw (place, digit)
        (print_ports_lem op size rounds (i + 1)
            (record w { ports = s; memory = m; printed = w.printed ++ (status_digit status ∷ []) })
          ∙ ap (λ ps. Outcome.done (tt, record w { ports = s'; memory = m'; printed = ps }))
              (append_assoc w.printed (status_digit status ∷ []) (digits op rounds (i + 1) (s, m))))

  -- Against a controller that may change memory before every access, the report on the ports ends
  -- and prints its heading, a digit for each port and a line feed: as many ports as the last byte
  -- of HCSPARAMS1 says, and for each the bits 0 and 17 of its PORTSC, 0x400 bytes behind the
  -- operational registers and 16 bytes a port, as it is when it is read.
  pub report_ports_lem :
      (xhc : Xhci.Controller) (w : Machine State)
      → let p = later io work frame 1 (w.ports, w.memory) in
        let count = read8 p.1 (xhc.cap + 7) in
        let (s, m) = later io work frame count p in
        report_ports io work frame xhc w
        ≡ Outcome.done (
          tt,
          record w {
            ports = s;
            memory = m;
            printed =
                w.printed
                ++ (Printed.usb_line UsbLine.port_status []
                    ∷ (digits xhc.op count 0 p ++ (Printed.char 0x0a ∷ [])));
          },
        )
  unfolding report_ports Xhci.port_reg_sets read_32
  report_ports_lem xhc w =
      let p = later io work frame 1 (w.ports, w.memory) in
      let count = read8 p.1 (xhc.cap + 7) in
      let heading : List Printed = Printed.usb_line UsbLine.port_status [] ∷ [] in
      let counted : read32 p.1 (xhc.cap + 4) / 2 ^ 24 ≡ count = count_lem p.1 xhc.cap in
      let ports : Xhci.ArrayWrapper = record {
        width = 16;
        array = u64 (xhc.op + 0x400);
        size = count;
      } in
      let (s, m) = later io work frame count p in
      let w₁ = record w { ports = p.0; memory = p.1; printed = w.printed ++ heading } in
      let end : List Printed = Printed.char 0x0a ∷ [] in
      let all = digits xhc.op count 0 p in
      rw counted (
        bind_done (print_ports io work frame ports count 0) (λ _. print (Printed.char 0x0a)) w₁
          (print_ports_lem xhc.op count count 0 w₁)
        ∙ ap (λ ps. Outcome.done (tt, record w { ports = s; memory = m; printed = ps }))
            (append_assoc (w.printed ++ heading) all end
              ∙ append_assoc w.printed heading (all ++ end)))
