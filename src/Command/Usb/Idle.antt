-- ===== src/Command/Usb/Idle.antt =====
-- command.cpp: parts of Xhci that only print, with a controller that does nothing.
use seccamp_os.Base.{ℕ, zero, suc, ◌+◌, ◌<◌, ◌≡◌, refl, arith, false, List, [], ◌∷◌, ◌++◌, Memory}
use seccamp_os.Ports.{Ports}
use seccamp_os.EventRing
use seccamp_os.Xhci
use seccamp_os.Command.Effects.{Printed, UsbLine, Machine, Outcome, Run, print, bind_done}
use seccamp_os.Command.Usb.{Frame, print_events, print_ports, print_segments, print_interrupter}
use seccamp_os.Command.Usb.Drive.{report_ports, report_ring}

module _ (io : Ports) (frame : Frame) where
  open io use {State}

  abbrev pub idle : State → Memory → State × Memory
  idle s m = (s, m)

  -- The part of the command prints something, and leaves the memory `m` and the rest of the
  -- machine as it was.
  abbrev pub OnlyPrints : {A : Type 0} → Run State A → A → Machine State → Type 0
  OnlyPrints f a w = (ps : List Printed) × (f w ≡ Outcome.done (a, record w { printed = ps }))

  print_ports-OnlyPrints :
      (ports : Xhci.ArrayWrapper) (rounds i : ℕ) (w : Machine State)
      → OnlyPrints (print_ports io idle frame ports rounds i) tt w
  unfolding print_ports
  print_ports-OnlyPrints ports zero i w = (w.printed, refl)
  print_ports-OnlyPrints ports (suc rounds) i w = print_ports-OnlyPrints ports rounds (i + 1) _

  print_segments-OnlyPrints :
      (er : EventRing.Manager) (rounds i : ℕ) (w : Machine State)
      → OnlyPrints (print_segments io idle frame er rounds i) tt w
  unfolding print_segments
  print_segments-OnlyPrints er zero i w = (w.printed, refl)
  print_segments-OnlyPrints er (suc rounds) i w = print_segments-OnlyPrints er rounds (i + 1) _

  pub print_events-quiet :
      (fuel regs : ℕ) (er : EventRing.Manager) (w : Machine State)
      → 0 < fuel
      → EventRing.has_front regs er w.memory ≡ false
      → print_events io idle frame fuel regs er w ≡ Outcome.done (tt, w)
  unfolding print_events
  print_events-quiet zero regs er w some_fuel none_there = absurd (omega arith)
  print_events-quiet (suc fuel) regs er w some_fuel none_there = rw none_there refl

  pub report_ports-OnlyPrints :
      (xhc : Xhci.Controller) (w : Machine State) → OnlyPrints (report_ports io idle frame xhc) tt w
  unfolding report_ports
  report_ports-OnlyPrints xhc w =
      let ports = Xhci.port_reg_sets xhc w.memory in
      let heading = Printed.usb_line UsbLine.port_status [] in
      let w₁ = record w { printed = w.printed ++ (heading ∷ []) } in
      let (ps, ran) = print_ports-OnlyPrints ports ports.size 0 w₁ in
      (
        ps ++ (Printed.char 0x0a ∷ []),
        bind_done (print_ports io idle frame ports ports.size 0) (λ _. print (Printed.char 0x0a)) w₁
            ran,
      )

  pub report_ring-OnlyPrints :
      (xhc : Xhci.Controller) (er : EventRing.Manager) (w : Machine State)
      → OnlyPrints (report_ring io idle frame xhc er) tt w
  unfolding report_ring print_interrupter
  report_ring-OnlyPrints xhc er w =
      let heading = Printed.usb_line UsbLine.segment_table (er.erst ∷ er.erst_size ∷ []) in
      let w₁ = record w { printed = w.printed ++ (heading ∷ []) } in
      let (ps, ran) = print_segments-OnlyPrints er er.erst_size 0 w₁ in
      (
        _,
        bind_done (print_segments io idle frame er er.erst_size 0)
            (λ _. print_interrupter io idle frame xhc) w₁ ran,
      )
