-- ===== src/Command/Usb/Endpoints.antt =====
-- command.cpp: the loop of Xhci over the endpoints of a device context, which the controller may
-- change at the same time.
use seccamp_os.Base.{
  ℕ, zero, suc, ◌+◌, ◌≤◌, ◌<◌, ◌≡◌, inl, inr, sym, ap, ◌∙◌, arith, Bool-cases, ltb, List, [], ◌∷◌,
  ◌++◌, append-nil, append_assoc, if◌then◌else◌, Memory,
}
use seccamp_os.Ports.{Ports}
use seccamp_os.Xhci.Contexts.{slot_context}
use seccamp_os.Command.Effects.{Printed, UsbLine, Machine, Outcome}
use seccamp_os.Command.Usb.{Frame, slot_at, endpoint_at, print_endpoints}
use seccamp_os.Command.Usb.Answered.{later}

module _ (io : Ports) (work : io.State → Memory → io.State × Memory) (frame : Frame) where
  open io use {State}

  -- When the endpoints have been printed from endpoint `i` on, and their lines.
  abbrev pub after_endpoints : ℕ → ℕ → ℕ → State × Memory → State × Memory
  after_endpoints dcaddr zero i p = p
  after_endpoints dcaddr (suc rounds) i p =
      let q = later io work frame 1 p in
      let rest = after_endpoints dcaddr rounds (i + 1) (later io work frame 4 q) in
      if ltb i (slot_at io work frame dcaddr q.1).context_entries then rest else q

  abbrev pub endpoint_lines : ℕ → ℕ → ℕ → State × Memory → List Printed
  endpoint_lines dcaddr zero i p = []
  endpoint_lines dcaddr (suc rounds) i p =
      let q = later io work frame 1 p in
      let rest = endpoint_lines dcaddr rounds (i + 1) (later io work frame 4 q) in
      if ltb i (slot_at io work frame dcaddr q.1).context_entries
      then Printed.usb_line UsbLine.endpoint (
          i
          ∷ (endpoint_at io work frame dcaddr i (later io work frame 1 q).1).ep_state
          ∷ (endpoint_at io work frame dcaddr i (later io work frame 2 q).1).ep_type
          ∷ (endpoint_at io work frame dcaddr i (later io work frame 3 q).1).max_burst_size
          ∷ (endpoint_at io work frame dcaddr i (later io work frame 4 q).1).max_packet_size
          ∷ [])
        ∷ rest
      else []

  entries-lt : (dcaddr : ℕ) (m : Memory) → (slot_at io work frame dcaddr m).context_entries < 32
  unfolding slot_context
  entries-lt dcaddr m = omega arith

  -- Whatever the controller does to memory before every access, the loop over the endpoints from
  -- endpoint `i` on ends within as many rounds as reach 32, although each test reads the number
  -- of entries again; it prints one line for each endpoint that is below this number when it is
  -- tested, with the fields as they are when they are read.
  pub print_endpoints_lem :
      (dcaddr rounds i : ℕ) (w : Machine State)
      → i < 32
      → 32 ≤ i + rounds
      → let (s, m) = after_endpoints dcaddr rounds i (w.ports, w.memory) in
        print_endpoints io work frame dcaddr rounds i w
        ≡ Outcome.done (
          tt,
          record w {
            ports = s;
            memory = m;
            printed = w.printed ++ endpoint_lines dcaddr rounds i (w.ports, w.memory);
          },
        )
  unfolding print_endpoints
  print_endpoints_lem dcaddr zero i w low enough = absurd (omega arith)
  print_endpoints_lem dcaddr (suc rounds) i w low enough =
      let q : State × Memory = later io work frame 1 (w.ports, w.memory) in
      elim (Bool-cases (ltb i (slot_at io work frame dcaddr q.1).context_entries)) [
        | inl more ↦
            let below : i < 31 = ground (arith, entries-lt dcaddr q.1) in
            rw more (
              print_endpoints_lem dcaddr rounds (i + 1) _ (omega arith) (omega arith)
              ∙ ap
                  (λ ps. Outcome.done (
                    tt,
                    record w {
                      ports = (after_endpoints dcaddr rounds (i + 1) (later io work frame 4 q)).0;
                      memory = (after_endpoints dcaddr rounds (i + 1) (later io work frame 4 q)).1;
                      printed = ps;
                    },
                  ))
                  (append_assoc w.printed (_ ∷ []) _))
        | inr last ↦ rw last (
            ap (λ ps. Outcome.done (tt, record w { ports = q.0; memory = q.1; printed = ps }))
              (sym (append-nil w.printed)))
      ]
