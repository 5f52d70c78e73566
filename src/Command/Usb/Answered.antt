-- ===== src/Command/Usb/Answered.antt =====
-- command.cpp: the command that Xhci sends for a device context, with a controller that answers.
use seccamp_os.Base.{
  ℕ, suc, ◌+◌, ◌<◌, ◌≡◌, refl, ap, ◌∙◌, List, [], ◌∷◌, ◌++◌, append-nil, append_assoc, Memory,
  bit_and, ◌>>>◌,
}
use seccamp_os.Ports.{Ports}
use seccamp_os.Register.{read_32, write_32, read_access32}
use seccamp_os.EventRing
use seccamp_os.EventRing.Walk.{IsTable, StandsAt, Place, next, pop_lem}
use seccamp_os.Xhci
use seccamp_os.Xhci.Contexts.{trb, command_dwords}
use seccamp_os.Command.Effects.{Printed, UsbLine, Machine, Outcome, bind_done}
use seccamp_os.Command.Usb.{
  Frame, put_command, command_for, fill_input_context, front, print_running, wait_running,
  wait_front,
}
use seccamp_os.Command.Usb.Drive.{take_event, await_event, send_command}
use seccamp_os.Command.Usb.Polling.{
  worked, HoldsAfter, is_running, wait_running_lem, wait_front_lem,
}

-- Lines added to others at the end, one after another.
abbrev one_by_one : List Printed → List Printed → List Printed
one_by_one ps [] = ps
one_by_one ps (q ∷ qs) = one_by_one (ps ++ (q ∷ [])) qs

one_by_one-append : (ps qs : List Printed) → one_by_one ps qs ≡ ps ++ qs
one_by_one-append ps [] = rw append-nil refl
one_by_one-append ps (q ∷ qs) = one_by_one-append (ps ++ (q ∷ [])) qs ∙ append_assoc ps (q ∷ []) qs

three_parts :
    (ps qs rs ss : List Printed) → one_by_one (one_by_one ps qs) rs ++ ss ≡ ps ++ (qs ++ (rs ++ ss))
three_parts ps qs rs ss =
    ap (λ l. l ++ ss)
      (one_by_one-append (one_by_one ps qs) rs ∙ ap (λ l. l ++ rs) (one_by_one-append ps qs))
    ∙ append_assoc (ps ++ qs) rs ss
    ∙ append_assoc ps qs (rs ++ ss)

module _ (io : Ports) (work : io.State → Memory → io.State × Memory) (frame : Frame) where
  open io use {State}

  -- Behind `n` pieces of work of the controller, and behind a change of the command's own.
  abbrev pub later : ℕ → State × Memory → State × Memory
  later n (s, m) = worked io work frame n s m

  abbrev pub touched : (Memory → Memory) → State × Memory → State × Memory
  touched f p = let (s, m) = later 1 p in (s, f m)

  module _ (xhc : Xhci.Controller) (doorbells : Xhci.ArrayWrapper) (regs dcaddr slot_id : ℕ) where
    -- When the command has been put on the ring and the doorbell has been rung.
    abbrev pub rung : State × Memory → State × Memory
    rung p = later 2 (
        touched (λ m. write_32 0 m (Xhci.element doorbells 0))
          (later 2 (
            touched
              (put_command frame.cr_buf (command_dwords (command_for frame.input_context slot_id)))
              (touched (fill_input_context frame.input_context dcaddr) p))))

    -- When the command has seen CRR at piece of work `n + 1` behind that.
    abbrev pub seen : ℕ → State × Memory → State × Memory
    seen n p = later 4 (later (suc n) (rung p))

    -- The controller sets CRR, and then gives the event ring a front.
    pub record Answers (er : EventRing.Manager) (n k : ℕ) (p : State × Memory) : Type 0 where
      pub running : HoldsAfter io work frame (is_running io work frame xhc) n (rung p).0 (rung p).1
      pub event : HoldsAfter io work frame (EventRing.has_front regs er) k (seen n p).0 (seen n p).1

    -- When the command has looked at the event.
    abbrev pub completed : ℕ → ℕ → State × Memory → State × Memory
    completed n k p = later 1 (later (suc k) (seen n p))

    -- A line about R/S and CRR.
    abbrev running_line : UsbLine → State × Memory → Printed
    running_line l p = Printed.usb_line l (
        bit_and (read_32 (later 1 p).1 (xhc.op + Xhci.usbcmd)) 1
        ∷ bit_and (read_access32 (later 2 p).1 (xhc.op + Xhci.crcr) >>> 3) 1
        ∷ [])

    -- What is printed until the doorbell has been rung, until CRR has been seen, and at the end.
    abbrev lines_before : State × Memory → List Printed
    lines_before p =
        let put =
          touched
            (put_command frame.cr_buf (command_dwords (command_for frame.input_context slot_id)))
            (touched (fill_input_context frame.input_context dcaddr) p) in
        let rang = touched (λ m. write_32 0 m (Xhci.element doorbells 0)) (later 2 put) in
        Printed.usb_line UsbLine.command_put (frame.cr_buf ∷ [])
        ∷ running_line UsbLine.doorbell_before put
        ∷ running_line UsbLine.doorbell_after rang
        ∷ []

    abbrev lines_between : ℕ → State × Memory → List Printed
    lines_between n p =
        let ran = later (suc n) (rung p) in
        Printed.usb_line UsbLine.crcr (read_access32 (later 1 ran).1 (xhc.op + Xhci.crcr) ∷ [])
        ∷ running_line UsbLine.crr_set (later 1 ran)
        ∷ Printed.usb_line UsbLine.waiting ((trb (front regs (seen n p).1)).cycle_bit ∷ [])
        ∷ []

    abbrev last_line : ℕ → ℕ → State × Memory → Printed
    last_line n k p =
        Printed.usb_line UsbLine.completed
          ((trb (front regs (completed n k p).1)).trb_type ∷ frame.trb ∷ [])

    -- When the command takes the event off the ring, and behind that.
    abbrev pub popped : ℕ → ℕ → State × Memory → State × Memory
    popped n k p = later 1 (completed n k p)

    abbrev pub taken :
        ℕ → ℕ → EventRing.Manager → State × Memory → EventRing.Manager × State × Memory
    taken n k er p =
        let (s, m) = popped n k p in let (er', m') = EventRing.pop regs er m in (er', s, m')

    abbrev pub command_lines : ℕ → ℕ → State × Memory → List Printed
    command_lines n k p = lines_before p ++ (lines_between n p ++ (last_line n k p ∷ []))

    sends :
        (fuel n k : ℕ) (er : EventRing.Manager) (w : Machine State)
        → Answers er n k (w.ports, w.memory)
        → n < fuel
        → k < fuel
        → let (er', s, m) = taken n k er (w.ports, w.memory) in
          send_command io work frame fuel xhc doorbells regs dcaddr slot_id er w
          ≡ Outcome.done (
            er',
            record w {
              ports = s;
              memory = m;
              printed =
                  one_by_one
                    (one_by_one w.printed (lines_before (w.ports, w.memory)))
                    (lines_between n (w.ports, w.memory))
                  ++ (last_line n k (w.ports, w.memory) ∷ []);
            },
          )
    unfolding send_command await_event take_event print_running
    sends fuel n k er w answers soon later_on =
        let p : State × Memory = (w.ports, w.memory) in
        let w₁ = record w {
          ports = (rung p).0;
          memory = (rung p).1;
          printed = one_by_one w.printed (lines_before p);
        } in
        let w₂ = record w {
          ports = (seen n p).0;
          memory = (seen n p).1;
          printed = one_by_one (one_by_one w.printed (lines_before p)) (lines_between n p);
        } in
        bind_done (wait_running io work frame fuel xhc)
          (λ _. await_event io work frame fuel xhc regs er) w₁
          (wait_running_lem io work frame n fuel xhc w₁ answers.running soon)
        ∙ bind_done (wait_front io work frame fuel regs er) (λ _. take_event io work frame regs er)
            w₂ (wait_front_lem io work frame k fuel regs er w₂ answers.event later_on)

    -- The same with the lines in one list.
    pub sends_lines :
        (fuel n k : ℕ) (er : EventRing.Manager) (w : Machine State)
        → Answers er n k (w.ports, w.memory)
        → n < fuel
        → k < fuel
        → let (er', s, m) = taken n k er (w.ports, w.memory) in
          send_command io work frame fuel xhc doorbells regs dcaddr slot_id er w
          ≡ Outcome.done (
            er',
            record w {
              ports = s;
              memory = m;
              printed = w.printed ++ command_lines n k (w.ports, w.memory);
            },
          )
    sends_lines fuel n k er w answers soon later_on =
        let p : State × Memory = (w.ports, w.memory) in
        let (er', s, m) = taken n k er p in
        let in_order : one_by_one (one_by_one w.printed (lines_before p)) (lines_between n p)
              ++ (last_line n k p ∷ [])
            ≡ w.printed ++ command_lines n k p =
          three_parts w.printed (lines_before p) (lines_between n p) (last_line n k p ∷ []) in
        sends fuel n k er w answers soon later_on
        ∙ ap (λ ps. Outcome.done (er', record w { ports = s; memory = m; printed = ps })) in_order

    -- Against a controller that may change memory before every access: if, after the command has
    -- rung the doorbell, CRR is first seen set at look `n + 1`, and after that the event ring is
    -- first seen with a front at look `k + 1`, with `n` and `k` below the fuel, the sending of a
    -- command ends, prints its seven lines with what stood in memory at each access, and takes
    -- one event off the ring; if, when it is taken off, the segment table is well formed and the
    -- manager stands at a place, the table stays as it was and the manager ends at the next
    -- place.
    pub send_command_lem :
        (fuel n k : ℕ) (er : EventRing.Manager) (w : Machine State)
        → {erst segments : ℕ} {base sizes : ℕ → ℕ} {place : Place}
        → Answers er n k (w.ports, w.memory)
        → n < fuel
        → k < fuel
        → IsTable regs erst segments base sizes (popped n k (w.ports, w.memory)).1
        → StandsAt regs erst segments base sizes place er (popped n k (w.ports, w.memory)).1
        → let (er', s, m) = taken n k er (w.ports, w.memory) in
          (send_command io work frame fuel xhc doorbells regs dcaddr slot_id er w
            ≡ Outcome.done (
              er',
              record w {
                ports = s;
                memory = m;
                printed = w.printed ++ command_lines n k (w.ports, w.memory);
              },
            ))
          × IsTable regs erst segments base sizes m
          × StandsAt regs erst segments base sizes (next segments sizes place) er' m
    send_command_lem fuel n k er w answers soon later_on table stands =
        let (table', stands') = pop_lem table stands in
        (sends_lines fuel n k er w answers soon later_on, table', stands')
