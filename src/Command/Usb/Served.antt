-- ===== src/Command/Usb/Served.antt =====
-- command.cpp: the loop of Xhci over the device contexts, with a controller that answers each
-- command.
use seccamp_os.Base.{
  ℕ, zero, suc, ◌+◌, ◌<◌, ◌≡◌, ◌≢◌, ◌⊎◌, inl, inr, sym, ap, ◌∙◌, arith, List, [], ◌∷◌, ◌++◌,
  append-nil, append_assoc, Memory, ==_ne,
}
use seccamp_os.Ports.{Ports}
use seccamp_os.Register.{read_64}
use seccamp_os.EventRing
use seccamp_os.Xhci
use seccamp_os.Command.Effects.{Printed, UsbLine, Machine, Outcome, bind_done}
use seccamp_os.Command.Usb.{Frame, slot_at, print_endpoints}
use seccamp_os.Command.Usb.Drive.{endpoint_rounds, send_command, visit_context, visit_contexts}
use seccamp_os.Command.Usb.Answered.{later, Answers, taken, command_lines, sends_lines}
use seccamp_os.Command.Usb.Endpoints.{after_endpoints, endpoint_lines, print_endpoints_lem}

module _ (io : Ports) (work : io.State → Memory → io.State × Memory) (frame : Frame) where
  open io use {State}

  module _ (fuel : ℕ) (xhc : Xhci.Controller) (doorbells : Xhci.ArrayWrapper) (regs : ℕ) where
    -- When the slot and its endpoints have been printed.
    abbrev pub reported : ℕ → State × Memory → State × Memory
    reported dcaddr p =
        after_endpoints io work frame dcaddr endpoint_rounds 0 (later io work frame 4 p)

    abbrev slot_line : ℕ → ℕ → State × Memory → Printed
    slot_line dcaddr slot_id p = Printed.usb_line UsbLine.device_context (
        slot_id
        ∷ (slot_at io work frame dcaddr (later io work frame 1 p).1).hub
        ∷ (slot_at io work frame dcaddr (later io work frame 2 p).1).context_entries
        ∷ (slot_at io work frame dcaddr (later io work frame 3 p).1).slot_state
        ∷ (slot_at io work frame dcaddr (later io work frame 4 p).1).usb_device_address
        ∷ [])

    -- The lines about a device context and its command.
    abbrev pub context_lines : ℕ → ℕ → ℕ → ℕ → State × Memory → List Printed
    context_lines dcaddr slot_id n k p =
        slot_line dcaddr slot_id p
        ∷ (endpoint_lines io work frame dcaddr endpoint_rounds 0 (later io work frame 4 p)
            ++ command_lines io work frame xhc doorbells regs dcaddr slot_id n k
                (reported dcaddr p))

    visit_context_lem :
        (dcaddr slot_id n k : ℕ) (er : EventRing.Manager) (w : Machine State)
        → dcaddr ≢ 0
        → Answers io work frame xhc doorbells regs dcaddr slot_id er n k
            (reported dcaddr (w.ports, w.memory))
        → n < fuel
        → k < fuel
        → let (er', s, m) =
            taken io work frame xhc doorbells regs dcaddr slot_id n k er
              (reported dcaddr (w.ports, w.memory)) in
          visit_context io work frame fuel xhc doorbells regs dcaddr slot_id er w
          ≡ Outcome.done (
            er',
            record w {
              ports = s;
              memory = m;
              printed = w.printed ++ context_lines dcaddr slot_id n k (w.ports, w.memory);
            },
          )
    unfolding visit_context
    visit_context_lem dcaddr slot_id n k er w present answers soon later_on =
        let p : State × Memory = (w.ports, w.memory) in
        let q : State × Memory = later io work frame 4 p in
        let first : List Printed = slot_line dcaddr slot_id p ∷ [] in
        let endpoints = endpoint_lines io work frame dcaddr endpoint_rounds 0 q in
        let command =
          command_lines io work frame xhc doorbells regs dcaddr slot_id n k (reported dcaddr p) in
        let w₁ = record w { ports = q.0; memory = q.1; printed = w.printed ++ first } in
        let w₂ = record w {
          ports = (reported dcaddr p).0;
          memory = (reported dcaddr p).1;
          printed = (w.printed ++ first) ++ endpoints;
        } in
        let (er', s, m) =
          taken io work frame xhc doorbells regs dcaddr slot_id n k er (reported dcaddr p) in
        rw (==_ne dcaddr 0 present) (
          bind_done (print_endpoints io work frame dcaddr endpoint_rounds 0)
            (λ _. send_command io work frame fuel xhc doorbells regs dcaddr slot_id er) w₁
            (print_endpoints_lem io work frame dcaddr endpoint_rounds 0 w₁ (omega arith)
              (omega arith)))
        ∙ sends_lines io work frame xhc doorbells regs dcaddr slot_id fuel n k er w₂ answers soon
            later_on
        ∙ ap (λ ps. Outcome.done (er', record w { ports = s; memory = m; printed = ps }))
            (append_assoc (w.printed ++ first) endpoints command
              ∙ append_assoc w.printed first (endpoints ++ command))

    module _ (contexts : Xhci.ArrayWrapper) where
      -- The next `rounds` slots from `slot_id` on are served in order: each has no device context
      -- when it is its turn, or has one whose command is answered within the fuel. `p'` and `ls`
      -- are what this leaves and what is printed.
      abbrev pub Served :
          ℕ → ℕ → EventRing.Manager → State × Memory → State × Memory → List Printed → Type 0
      Served zero slot_id er p p' ls = (p ≡ p') × (ls ≡ [])
      Served (suc rounds) slot_id er p p' ls =
          let q = later io work frame 1 p in
          let dcaddr = read_64 q.1 (Xhci.element contexts slot_id) in
          ((dcaddr ≡ 0) × Served rounds (slot_id + 1) er q p' ls)
          ⊎ ((dcaddr ≢ 0)
              × (n : ℕ) × (k : ℕ) × (rest : List Printed) × (n < fuel)
              × (k < fuel)
              × Answers io work frame xhc doorbells regs dcaddr slot_id er n k (reported dcaddr q)
              × (ls ≡ context_lines dcaddr slot_id n k q ++ rest)
              × (let (er', s, m) =
                    taken io work frame xhc doorbells regs dcaddr slot_id n k er
                      (reported dcaddr q) in
                  Served rounds (slot_id + 1) er' (s, m) p' rest))

      -- Against a controller that may change memory before every access: if the next slots are
      -- served in order, each without a device context when it is its turn, or with one whose
      -- command is answered within the fuel, the loop of `Xhci` over the device contexts ends; it
      -- has printed for each context its slot, its endpoints and the seven lines of its command,
      -- and has sent these commands one after another, the event ring and the memory of each
      -- being those that the one before has left.
      pub visit_contexts_lem :
          (rounds slot_id : ℕ) (er : EventRing.Manager) (w : Machine State) (p' : State × Memory)
          (ls : List Printed)
          → Served rounds slot_id er (w.ports, w.memory) p' ls
          → visit_contexts io work frame fuel xhc doorbells regs contexts rounds slot_id er w
            ≡ Outcome.done (tt, record w { ports = p'.0; memory = p'.1; printed = w.printed ++ ls })
      unfolding visit_contexts
      visit_contexts_lem zero slot_id er w p' ls (same, none_printed) =
          ap
            (λ (t : (State × Memory) × List Printed).
              Outcome.done (tt, record w { ports = t.0.0; memory = t.0.1; printed = t.1 }))
            (λ i. (
              same i,
              (sym (append-nil w.printed) ∙ ap (λ l. w.printed ++ l) (sym none_printed)) i,
            ))
      visit_contexts_lem (suc rounds) slot_id er w p' ls (inl (none_there, served)) =
          let q : State × Memory = later io work frame 1 (w.ports, w.memory) in
          let w₁ = record w { ports = q.0; memory = q.1 } in
          rw (visit_context, none_there)
            (visit_contexts_lem rounds (slot_id + 1) er w₁ p' ls served)
      visit_contexts_lem (suc rounds) slot_id er w p' ls
            (inr (present, n, k, rest, soon, later_on, answers, lines, served)) =
          let q : State × Memory = later io work frame 1 (w.ports, w.memory) in
          let w₁ = record w { ports = q.0; memory = q.1 } in
          let dcaddr = read_64 q.1 (Xhci.element contexts slot_id) in
          let (er', s, m) =
            taken io work frame xhc doorbells regs dcaddr slot_id n k er (reported dcaddr q) in
          let w₂ = record w {
            ports = s;
            memory = m;
            printed = w.printed ++ context_lines dcaddr slot_id n k q;
          } in
          bind_done (visit_context io work frame fuel xhc doorbells regs dcaddr slot_id er)
            (visit_contexts io work frame fuel xhc doorbells regs contexts rounds (slot_id + 1)) w₁
            (visit_context_lem dcaddr slot_id n k er w₁ present answers soon later_on)
          ∙ visit_contexts_lem rounds (slot_id + 1) er' w₂ p' rest served
          ∙ ap (λ ps. Outcome.done (tt, record w { ports = p'.0; memory = p'.1; printed = ps }))
              (append_assoc w.printed (context_lines dcaddr slot_id n k q) rest
                ∙ ap (λ l. w.printed ++ l) (sym lines))
