-- ===== src/Tests/Rings/Answered.antt =====
-- command.cpp, one command of Xhci, with a controller that sets CRR, and some time later posts a
-- completion event on the ring of Rings.
use seccamp_os.Base.{
  ℕ, zero, suc, ◌++◌, ◌<◌, ◌≡◌, inr, refl, arith, [], Memory, read32, write32, write8,
}
use seccamp_os.Libc.{memset, memcpy}
use seccamp_os.Bitutil.{clear_bits}
use seccamp_os.Register.{read_32, write_32, read_64, read_half, read_access32}
use seccamp_os.EventRing
use seccamp_os.EventRing.Walk.{IsTable, StandsAt}
use seccamp_os.Command.Effects.{Machine, Outcome}
use seccamp_os.Command.Usb.{put_command, fill_input_context}
use seccamp_os.Command.Usb.Drive.{send_command}
use seccamp_os.Command.Usb.Answered.{Answers, popped, taken, command_lines, send_command_lem}
use seccamp_os.Tests.Rings.{
  no_ports, answering, frame, xhc, doorbells, memory, base, sizes, manager,
}

abbrev machine : Machine ℕ
machine = record {
  devices = record { pci_devices = []; num_pci_devices = 0 };
  ports = 0;
  memory = memory;
  printed = [];
}

answers : Answers no_ports answering frame xhc doorbells 0x100 0x8000 1 manager 1 1 (0, memory)
unfolding memset memcpy write32 write8 read32 read_32 write_32 read_64 read_half read_access32
    clear_bits put_command fill_input_context EventRing.has_front EventRing.cycle_bit
    EventRing.read_dequeue_pointer
answers = record { running = (refl, refl); event = (refl, refl) }

abbrev posted : Memory
posted = (popped no_ports answering frame xhc doorbells 0x100 0x8000 1 1 1 (0, memory)).1

begins : (i : ℕ) → i < 2 → EventRing.begin posted 0x1000 i ≡ base i
unfolding memset memcpy write32 write8 read32 write_32 put_command fill_input_context
    EventRing.begin read_64
begins zero h = refl
begins (suc zero) h = refl
begins (suc (suc i)) h = absurd (omega arith)

counts : (i : ℕ) → i < 2 → EventRing.size posted 0x1000 i ≡ sizes i
unfolding memset memcpy write32 write8 read32 write_32 put_command fill_input_context EventRing.size
counts zero h = refl
counts (suc zero) h = refl
counts (suc (suc i)) h = absurd (omega arith)

posted-IsTable : IsTable 0x100 0x1000 2 base sizes posted
posted-IsTable = record {
  some_segments = omega arith;
  table_fits = omega arith;
  apart = inr (omega arith);
  begins = begins;
  counts = counts;
  aligned = λ i h. ground arith;
  full = λ i h. ground arith;
  fits = λ i h. ground arith;
}

posted-StandsAt :
    StandsAt 0x100 0x1000 2 base sizes (record { segment = 0; trb = 1; cycle = 1 }) manager posted
unfolding memset memcpy write32 write8 read32 write_32 put_command fill_input_context read_64
posted-StandsAt = record {
  table = refl;
  table_size = refl;
  index = refl;
  state = refl;
  in_table = omega arith;
  in_segment = omega arith;
  one_bit = omega arith;
  pointer = refl;
}

-- The event is the second TRB of the first segment; the manager goes on to the second segment.
send_command_lem_example :
    let (er', s, m) =
      taken no_ports answering frame xhc doorbells 0x100 0x8000 1 1 1 manager (0, memory) in
    (send_command no_ports answering frame 2 xhc doorbells 0x100 0x8000 1 manager machine
      ≡ Outcome.done (
        er',
        record machine {
          ports = s;
          memory = m;
          printed =
              []
              ++ command_lines no_ports answering frame xhc doorbells 0x100 0x8000 1 1 1
                  (0, memory);
        },
      ))
    × IsTable 0x100 0x1000 2 base sizes m
    × StandsAt 0x100 0x1000 2 base sizes (record { segment = 1; trb = 0; cycle = 1 }) er' m
send_command_lem_example =
    send_command_lem no_ports answering frame xhc doorbells 0x100 0x8000 1 2 1 1 manager machine
      answers (omega arith) (omega arith) posted-IsTable posted-StandsAt
