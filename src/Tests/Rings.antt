-- ===== src/Tests/Rings.antt =====
-- xhci_er.hpp at an event ring of two segments, the first with two TRBs and the second with one.
pub mod Answered
pub mod Served
use seccamp_os.Base.{
  ℕ, zero, suc, ◌+◌, ◌*◌, false, ◌<◌, ◌≡◌, inr, refl, arith, Memory, read32, ◌==◌, if◌then◌else◌,
}
use seccamp_os.Ports.{Ports}
use seccamp_os.Xhci
use seccamp_os.Command.Usb.{Frame}
use seccamp_os.Register
use seccamp_os.EventRing.{Manager, begin, size, initialize, cycle_bit, has_front}
use seccamp_os.EventRing.Start.{IsReady, initialize-StandsAt}
use seccamp_os.Bitutil.{clear_bits}
use seccamp_os.EventRing.Walk.{IsTable, StandsAt, pops, pops_lem}

-- The table is at 0x1000, and the dequeue pointer, at 0x118, is on the second TRB.
abbrev memory : Memory
memory = λ a.
    if a == 0x1001
    then 0x20
    else (if a == 0x1008
        then 2
        else (if a == 0x1011
            then 0x30
            else (if a == 0x1018
                then 1
                else (if a == 0x118 then 0x10 else (if a == 0x119 then 0x20 else 0)))))

abbrev base : ℕ → ℕ
base i = if i == 0 then 0x2000 else 0x3000

abbrev sizes : ℕ → ℕ
sizes i = if i == 0 then 2 else 1

abbrev manager : Manager
manager = record { producer_cycle = 1; erst = 0x1000; erst_size = 2; erst_index = 0 }

begins : (i : ℕ) → i < 2 → begin memory 0x1000 i ≡ base i
unfolding begin Register.read_64 read32
begins zero h = refl
begins (suc zero) h = refl
begins (suc (suc i)) h = absurd (omega arith)

counts : (i : ℕ) → i < 2 → size memory 0x1000 i ≡ sizes i
unfolding size read32
counts zero h = refl
counts (suc zero) h = refl
counts (suc (suc i)) h = absurd (omega arith)

memory-IsTable : IsTable 0x100 0x1000 2 base sizes memory
memory-IsTable = record {
  some_segments = omega arith;
  table_fits = omega arith;
  apart = inr (omega arith);
  begins = begins;
  counts = counts;
  aligned = λ i h. ground arith;
  full = λ i h. ground arith;
  fits = λ i h. ground arith;
}

manager-StandsAt :
    StandsAt 0x100 0x1000 2 base sizes (record { segment = 0; trb = 1; cycle = 1 }) manager memory
unfolding Register.read_64 read32
manager-StandsAt = record {
  table = refl;
  table_size = refl;
  index = refl;
  state = refl;
  in_table = omega arith;
  in_segment = omega arith;
  one_bit = omega arith;
  pointer = refl;
}

-- To the other segment, and round to the first with the cycle state flipped.
pops_lem_example :
    let (r, m) = pops 0x100 2 (manager, memory) in
    IsTable 0x100 0x1000 2 base sizes m
    × StandsAt 0x100 0x1000 2 base sizes (record { segment = 0; trb = 0; cycle = 0 }) r m
pops_lem_example = pops_lem 2 memory-IsTable manager-StandsAt

-- The registers name the table of two segments.
abbrev named : Memory
named = λ a. if a == 0x108 then 2 else (if a == 0x111 then 0x10 else memory a)

named-begins : (i : ℕ) → i < 2 → begin named 0x1000 i ≡ base i
unfolding begin Register.read_64 read32
named-begins zero h = refl
named-begins (suc zero) h = refl
named-begins (suc (suc i)) h = absurd (omega arith)

named-counts : (i : ℕ) → i < 2 → size named 0x1000 i ≡ sizes i
unfolding size read32
named-counts zero h = refl
named-counts (suc zero) h = refl
named-counts (suc (suc i)) h = absurd (omega arith)

named-IsReady : IsReady 0x100 0x1000 2 base sizes named
unfolding Register.read_64 read32 clear_bits
named-IsReady = record {
  segments = record {
    some_segments = omega arith;
    table_fits = omega arith;
    apart = inr (omega arith);
    begins = named-begins;
    counts = named-counts;
    aligned = λ i h. ground arith;
    full = λ i h. ground arith;
    fits = λ i h. ground arith;
  };
  loaded = refl;
  counted = refl;
  registers = inr (omega arith);
  table_apart = λ i h. inr (ground arith);
  registers_apart = λ i h. inr (ground arith);
}

-- What stood in the TRBs before makes no difference.
initialize-StandsAt_example :
    let (r, m) = initialize 0x100 named in
    IsTable 0x100 0x1000 2 base sizes m
    × StandsAt 0x100 0x1000 2 base sizes (record { segment = 0; trb = 0; cycle = 1 }) r m
    × ((i j : ℕ) → i < 2 → j < sizes i → cycle_bit 0x100 m (base i + 16 * j) ≡ 0)
    × (has_front 0x100 r m ≡ false)
initialize-StandsAt_example = initialize-StandsAt 0x100 0x1000 2 base sizes named named-IsReady

abbrev no_ports : Ports
no_ports = record {
  State = ℕ;
  out8 = λ port v s. s;
  in8 = λ port s. (0, s);
  out32 = λ port v s. s;
  in32 = λ port s. (0, s);
}

-- The state counts the pieces of work. The event has type 33 and cycle bit 1.
abbrev answering : ℕ → Memory → ℕ × Memory
answering s m = (
  s + 1,
  if s == 8
      then (λ a. if a == 0x158 then 8 else m a)
      else (if s == 14
          then (λ a. if a == 0x201c then 1 else (if a == 0x201d then 0x84 else m a))
          else m),
)

abbrev frame : Frame
frame = record { cr_buf = 0x4000; input_context = 0x5000; trb = 0x6000 }

abbrev xhc : Xhci.Controller
xhc = record { mmio_base = 0x100; cap = 0x100; op = 0x140 }

abbrev doorbells : Xhci.ArrayWrapper
doorbells = record { width = 4; array = 0x7000; size = 256 }
