-- ===== src/Keyboard/Loop.antt =====
-- main.cpp: the loop of `MyMain`, one access to the shared globals at a time, and the interrupts
-- that may arrive between any two of them on the one processor.
use seccamp_os.Base.{
  ℕ, Bool, false, Option, none, some, List, [], ◌∷◌, ◌++◌, ◌==◌, if◌then◌else◌, u8, replicate,
}
use seccamp_os.Queue
use seccamp_os.Mutex
use seccamp_os.Keyboard.{Shared, capacity, deliver}
use seccamp_os.Keyboard.Decode.{decode}

-- Where the loop stands, with `key` where it is live.
pub data Pc : Type 0 where
  locking : Pc
  counting : Pc  -- `keydat.Count() == 0`
  leaving : Pc  -- `Unlock` before `hlt`
  sleeping : Pc  -- `hlt` is the next instruction
  halted : Pc
  fronting : Pc
  popping : (key : ℕ) → Pc
  unlocking : (key : ℕ) → Pc
  handling : (key : ℕ) → Pc
  fault : Pc  -- after a read outside the array

-- `typed` are the characters given to `shell.PutChar`, and `handled` the scan codes taken, both
-- oldest first.
pub record System : Type 0 where
  pub shared : Shared
  pub pc : Pc
  pub shifted : Bool
  pub typed : List ℕ
  pub handled : List ℕ

abbrev pub type_char : Option ℕ → List ℕ → List ℕ
type_char none typed = typed
type_char (some c) typed = typed ++ (c ∷ [])

-- One step of the loop from each place.
abbrev pub tick_at : Pc → System → System
tick_at Pc.locking s =
    let (again, m) = Mutex.lock_round s.shared.keydat_mutex in
    record s {
      shared = record (s.shared) { keydat_mutex = m };
      pc = if again then Pc.locking else Pc.counting;
    }
tick_at Pc.counting s = record s {
  pc = if Queue.count s.shared.keydat == 0 then Pc.leaving else Pc.fronting;
}
tick_at Pc.leaving s = record s {
  shared = record (s.shared) { keydat_mutex = Mutex.unlock s.shared.keydat_mutex };
  pc = Pc.sleeping;
}
tick_at Pc.sleeping s = record s { pc = Pc.halted }
tick_at Pc.halted s = s
tick_at Pc.fronting s = record s {
  pc = elim (Queue.front s.shared.keydat) [ none ↦ Pc.fault | some key ↦ Pc.popping key ];
}
tick_at (Pc.popping key) s = record s {
  shared = record (s.shared) { keydat = (Queue.pop capacity s.shared.keydat).1 };
  pc = Pc.unlocking key;
}
tick_at (Pc.unlocking key) s = record s {
  shared = record (s.shared) { keydat_mutex = Mutex.unlock s.shared.keydat_mutex };
  pc = Pc.handling key;
}
tick_at (Pc.handling key) s =
    let (shifted, c) = decode s.shifted key in
    record s {
      pc = Pc.locking;
      shifted = shifted;
      typed = type_char c s.typed;
      handled = s.handled ++ (key ∷ []);
    }
tick_at Pc.fault s = s

-- After the handler a halted processor goes on behind the `hlt`.
abbrev pub wake : Pc → Pc
wake Pc.halted = Pc.locking
wake pc = pc

pub data Event : Type 0 where
  interrupt : (dat : ℕ) → Event
  tick : Event

unfoldable pub step : Event → System → System
step (Event.interrupt dat) s = record s { shared = deliver (u8 dat) s.shared; pc = wake s.pc }
step Event.tick s = tick_at s.pc s

unfoldable pub run : List Event → System → System
unfolding step
run [] s = s
run (e ∷ es) s = run es (step e s)

-- The globals lie in storage that is zero before their constructors run.
abbrev pub init : System
init = record {
  shared = record {
    keydat =
        Queue.construct
          (record { slots = replicate capacity 0; read_pos = 0; write_pos = 0; count = 0 });
    keydat_mutex = Mutex.construct;
    num_lostkey = 0;
  };
  pc = Pc.locking;
  shifted = false;
  typed = [];
  handled = [];
}
