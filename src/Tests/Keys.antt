-- ===== src/Tests/Keys.antt =====
-- The keyboard of main.cpp at concrete scan codes and schedules.
use seccamp_os.Base.{arith, refl, ℕ, ◌≤◌, ◌≡◌, ◌≢◌, List, [], ◌∷◌, ◌++◌, length}
use seccamp_os.Queue.Refine.{Represents}
use seccamp_os.Queue
use seccamp_os.Mutex
use seccamp_os.Keyboard.{capacity, deliver}
use seccamp_os.Keyboard.Loop
use seccamp_os.Keyboard.Loop.{Pc, Event}
use seccamp_os.Keyboard.Abstract
use seccamp_os.Keyboard.Related.{Related}
use seccamp_os.Keyboard.Refine.{keyboard_refines}
use seccamp_os.Keyboard.Delivery.{Splits, in_flight, delivery}
use seccamp_os.Keyboard.Wakeup.{lost_wakeup}

-- Two keys, the first of which the loop has in hand.
abbrev schedule : List Event
schedule =
    Event.interrupt 0x1e
    ∷ Event.tick
    ∷ Event.tick
    ∷ Event.tick
    ∷ Event.tick
    ∷ Event.tick
    ∷ Event.interrupt 0x30
    ∷ []

keyboard_refines_example :
    Related (Loop.run schedule Loop.init) (Abstract.run schedule Abstract.init)
    × ((Loop.run schedule Loop.init).pc ≢ Pc.fault)
keyboard_refines_example = keyboard_refines schedule

delivery_example :
    let s = Loop.run schedule Loop.init in
    (kept missed pending : List ℕ) × Splits (0x1e ∷ 0x30 ∷ []) kept missed
    × Represents capacity s.shared.keydat pending
    × (kept ≡ s.handled ++ (in_flight s.pc ++ pending))
    × (s.shared.num_lostkey ≤ length missed)
delivery_example = delivery schedule

-- The loop has found the queue empty and has released the lock when a key arrives.
abbrev asleep : List Event
asleep = Event.tick ∷ Event.tick ∷ Event.tick ∷ Event.interrupt 0x1e ∷ []

asleep_there :
    ((Loop.run asleep Loop.init).pc ≡ Pc.sleeping)
    × ((Loop.run asleep Loop.init).shared.keydat.count ≡ 1)
unfolding Loop.run deliver Mutex.lock_round Queue.count Queue.construct Queue.push
asleep_there = (refl, refl)

lost_wakeup_example :
    let s = Loop.run asleep Loop.init in
    let s' = Loop.run (Event.interrupt 0x30 ∷ Event.tick ∷ Event.tick ∷ Event.tick ∷ []) s in
    (before : List ℕ) × Represents capacity s.shared.keydat before
    × Represents capacity s'.shared.keydat (before ++ (0x30 ∷ []))
    × (s'.pc ≡ Pc.halted)
    × (s'.shared.num_lostkey ≡ s.shared.num_lostkey)
    × (s'.handled ≡ s.handled)
    × ((Loop.step (Event.interrupt 0x2e) s').pc ≡ Pc.locking)
lost_wakeup_example =
    lost_wakeup asleep (0x30 ∷ []) 2 0x2e asleep_there.0 (omega (arith, asleep_there.1))
