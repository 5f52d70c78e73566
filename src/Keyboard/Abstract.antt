-- ===== src/Keyboard/Abstract.antt =====
-- What the keyboard promises, without array, positions or flag: the scan codes that wait are a
-- list, and whether an interrupt finds the lock taken depends on where the loop stands.
use seccamp_os.Base.{
  ℕ, ◌+◌, Bool, true, false, List, [], ◌∷◌, ◌++◌, ◌==◌, if◌then◌else◌, u8, u32, length,
}
use seccamp_os.Keyboard.{capacity}
use seccamp_os.Keyboard.Decode.{decode}
use seccamp_os.Keyboard.Loop.{Pc, Event, type_char, wake}

pub record Keys : Type 0 where
  pub pending : List ℕ
  pub lost : ℕ
  pub pc : Pc
  pub shifted : Bool
  pub typed : List ℕ
  pub handled : List ℕ

-- The loop holds the lock.
abbrev pub critical : Pc → Bool
critical Pc.counting = true
critical Pc.leaving = true
critical Pc.fronting = true
critical (Pc.popping _) = true
critical (Pc.unlocking _) = true
critical _ = false

-- A scan code that arrives while the loop holds the lock is counted as lost; one that finds
-- `capacity` codes waiting is dropped and not counted; any other waits behind the rest.
unfoldable pub arrive : ℕ → Keys → Keys
arrive dat k =
    if critical k.pc
    then record k { lost = u32 (k.lost + 1) }
    else if length k.pending == capacity
    then k
    else record k { pending = k.pending ++ (dat ∷ []) }

abbrev pub look : List ℕ → Pc
look [] = Pc.leaving
look (_ ∷ _) = Pc.fronting

abbrev pub take : List ℕ → Pc
take [] = Pc.fault
take (key ∷ _) = Pc.popping key

abbrev pub rest : List ℕ → List ℕ
rest [] = []
rest (_ ∷ keys) = keys

abbrev pub tick_at : Pc → Keys → Keys
tick_at Pc.locking k = record k { pc = Pc.counting }
tick_at Pc.counting k = record k { pc = look k.pending }
tick_at Pc.leaving k = record k { pc = Pc.sleeping }
tick_at Pc.sleeping k = record k { pc = Pc.halted }
tick_at Pc.halted k = k
tick_at Pc.fronting k = record k { pc = take k.pending }
tick_at (Pc.popping key) k = record k { pc = Pc.unlocking key; pending = rest k.pending }
tick_at (Pc.unlocking key) k = record k { pc = Pc.handling key }
tick_at (Pc.handling key) k =
    let (shifted, c) = decode k.shifted key in
    record k {
      pc = Pc.locking;
      shifted = shifted;
      typed = type_char c k.typed;
      handled = k.handled ++ (key ∷ []);
    }
tick_at Pc.fault k = k

unfoldable pub step : Event → Keys → Keys
unfolding arrive
step (Event.interrupt dat) k = let k' = arrive (u8 dat) k in record k' { pc = wake k'.pc }
step Event.tick k = tick_at k.pc k

unfoldable pub run : List Event → Keys → Keys
unfolding step
run [] k = k
run (e ∷ es) k = run es (step e k)

abbrev pub init : Keys
init = record { pending = []; lost = 0; pc = Pc.locking; shifted = false; typed = []; handled = [] }
