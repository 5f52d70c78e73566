-- ===== src/Tests/Rings/Served.antt =====
-- command.cpp, the loop of Xhci over two slots, the second with a device context.
use seccamp_os.Base.{
  ℕ, ◌≡◌, inl, inr, refl, arith, List, [], ◌++◌, Memory, read32, write32, write8, ◌==◌,
  if◌then◌else◌,
}
use seccamp_os.Libc.{memset, memcpy}
use seccamp_os.Bitutil.{clear_bits}
use seccamp_os.Register.{write_32, read_64, read_half, read_access32}
use seccamp_os.EventRing
use seccamp_os.Xhci
use seccamp_os.Xhci.Contexts.{slot_context}
use seccamp_os.Command.Effects.{Printed, Machine, Outcome}
use seccamp_os.Command.Usb.Endpoints.{after_endpoints, endpoint_lines, print_endpoints_lem}
use seccamp_os.Command.Usb.{print_endpoints, put_command, fill_input_context}
use seccamp_os.Command.Usb.Drive.{visit_contexts}
use seccamp_os.Command.Usb.Answered.{later, taken, Answers}
use seccamp_os.Command.Usb.Served.{Served, reported, context_lines, visit_contexts_lem}
use seccamp_os.Tests.Rings.{memory, manager, no_ports, answering, frame, xhc, doorbells}

-- Slot 1 has its device context at 0x8000, with two endpoints.
abbrev with_context : Memory
with_context = λ a. if a == 0x6009 then 0x80 else (if a == 0x8003 then 0x10 else memory a)

abbrev machine : Machine ℕ
machine = record {
  devices = record { pci_devices = []; num_pci_devices = 0 };
  ports = 0;
  memory = with_context;
  printed = [];
}

abbrev contexts : Xhci.ArrayWrapper
contexts = record { width = 8; array = 0x6000; size = 2 }

-- When the addresses of both slots have been read.
abbrev second : ℕ × Memory
second = later no_ports answering frame 1 (later no_ports answering frame 1 (0, with_context))

abbrev behind : EventRing.Manager × ℕ × Memory
behind =
    taken no_ports answering frame xhc doorbells 0x100 0x8000 1 0 0 manager
      (reported no_ports answering frame 1 xhc doorbells 0x100 0x8000 second)

abbrev lines : List Printed
lines = context_lines no_ports answering frame 1 xhc doorbells 0x100 0x8000 1 0 0 second

answers :
    Answers no_ports answering frame xhc doorbells 0x100 0x8000 1 manager 0 0
      (reported no_ports answering frame 1 xhc doorbells 0x100 0x8000 second)
unfolding memset memcpy write32 write8 read32 write_32 read_64 read_half read_access32 clear_bits
    slot_context put_command fill_input_context EventRing.has_front EventRing.cycle_bit
    EventRing.read_dequeue_pointer
answers = record { running = refl; event = refl }

served :
    Served no_ports answering frame 1 xhc doorbells 0x100 contexts 2 0 manager
      (0, with_context)
      (behind.1, behind.2)
      (lines ++ [])
unfolding read_64 read32
served = inl (
  refl,
  inr (
    (λ e. absurd (omega arith)),
    0,
    0,
    [],
    omega arith,
    omega arith,
    answers,
    refl,
    (refl, refl),
  ),
)

visit_contexts_lem_example :
    visit_contexts no_ports answering frame 1 xhc doorbells 0x100 contexts 2 0 manager machine
    ≡ Outcome.done
        (tt, record machine { ports = behind.1; memory = behind.2; printed = [] ++ (lines ++ []) })
visit_contexts_lem_example =
    visit_contexts_lem no_ports answering frame 1 xhc doorbells 0x100 contexts 2 0 manager machine
      (behind.1, behind.2) (lines ++ []) served

print_endpoints_lem_example :
    let (s, m) = after_endpoints no_ports answering frame 0x8000 32 0 (0, with_context) in
    print_endpoints no_ports answering frame 0x8000 32 0 machine
    ≡ Outcome.done (
      tt,
      record machine {
        ports = s;
        memory = m;
        printed = [] ++ endpoint_lines no_ports answering frame 0x8000 32 0 (0, with_context);
      },
    )
print_endpoints_lem_example =
    print_endpoints_lem no_ports answering frame 0x8000 32 0 machine (omega arith) (omega arith)
