-- ===== src/Command/Usb/Polling.antt =====
-- command.cpp: the three loops of Xhci that wait for the controller.
use seccamp_os.Base.{
  ℕ, zero, suc, ◌+◌, ◌<◌, ◌≡◌, refl, arith, Bool, true, false, not, ◌==◌, bit_and, Memory,
}
use seccamp_os.Ports.{Ports}
use seccamp_os.Register.{read_access32}
use seccamp_os.EventRing
use seccamp_os.Xhci
use seccamp_os.Command.Effects.{Machine, Outcome}
use seccamp_os.Command.Usb.{Frame, print_events, wait_running, wait_front}

module _ (io : Ports) (work : io.State → Memory → io.State × Memory) (frame : Frame) where
  open io use {State}

  -- After `n` pieces of work of the controller.
  abbrev pub worked : ℕ → State → Memory → State × Memory
  worked zero s m = (s, m)
  worked (suc n) s m = let (s', m') = work s m in worked n s' m'

  abbrev pub left_by : ℕ → Machine State → Machine State
  left_by n w = let (s, m) = worked n w.ports w.memory in record w { ports = s; memory = m }

  -- The test holds after `n` pieces of work for the first time, counted from one.
  abbrev pub HoldsAfter : (Memory → Bool) → ℕ → State → Memory → Type 0
  HoldsAfter test zero s m = test (work s m).1 ≡ true
  HoldsAfter test (suc n) s m =
      (test (work s m).1 ≡ false) × HoldsAfter test n (work s m).0 (work s m).1

  -- CRR, the bit 3 of CRCR.
  abbrev pub is_running : Xhci.Controller → Memory → Bool
  is_running xhc m = not (bit_and (read_access32 m (xhc.op + Xhci.crcr)) 8 == 0)

  not-true : (b : Bool) → not b ≡ true → b ≡ false
  not-true true h = absurd (ground arith)
  not-true false h = refl

  not-false : (b : Bool) → not b ≡ false → b ≡ true
  not-false true h = refl
  not-false false h = absurd (ground arith)

  -- If CRR is set for the first time by the piece of work `n + 1` that the controller does from
  -- now on, the loop that waits for it ends with fuel above `n`, and the memory is as that piece
  -- of work has left it.
  pub wait_running_lem :
      (n fuel : ℕ) (xhc : Xhci.Controller) (w : Machine State)
      → HoldsAfter (is_running xhc) n w.ports w.memory
      → n < fuel
      → wait_running io work frame fuel xhc w ≡ Outcome.done (tt, left_by (suc n) w)
  unfolding wait_running
  wait_running_lem n zero xhc w h enough = absurd (omega arith)
  wait_running_lem zero (suc fuel) xhc w h enough = rw (not-true _ h) refl
  wait_running_lem (suc n) (suc fuel) xhc w (before, h) enough =
      rw (not-false _ before) (wait_running_lem n fuel xhc (left_by 1 w) h (omega arith))

  -- If the event ring gets a front for the first time by the piece of work `n + 1` that the
  -- controller does from now on, the loop that waits for it ends with fuel above `n`, and the
  -- memory is as that piece of work has left it.
  pub wait_front_lem :
      (n fuel regs : ℕ) (er : EventRing.Manager) (w : Machine State)
      → HoldsAfter (EventRing.has_front regs er) n w.ports w.memory
      → n < fuel
      → wait_front io work frame fuel regs er w ≡ Outcome.done (tt, left_by (suc n) w)
  unfolding wait_front
  wait_front_lem n zero regs er w h enough = absurd (omega arith)
  wait_front_lem zero (suc fuel) regs er w h enough = rw h refl
  wait_front_lem (suc n) (suc fuel) regs er w (before, h) enough =
      rw before (wait_front_lem n fuel regs er (left_by 1 w) h (omega arith))

  -- `Stays` is kept by the controller's work and means that the ring has a front.
  pub record KeepsFront (regs : ℕ) (er : EventRing.Manager) (Stays : State → Memory → Type 0)
      : Type 0 where
    pub kept : (s : State) (m : Memory) → Stays s m → Stays (work s m).0 (work s m).1
    pub has_front : (s : State) (m : Memory) → Stays s m → EventRing.has_front regs er m ≡ true

  keeps_worked :
      (regs : ℕ) (er : EventRing.Manager) (Stays : State → Memory → Type 0)
      → KeepsFront regs er Stays
      → (n : ℕ) (s : State) (m : Memory) → Stays s m
      → Stays (worked n s m).0 (worked n s m).1
  keeps_worked regs er Stays keeps zero s m now = now
  keeps_worked regs er Stays keeps (suc n) s m now =
      keeps_worked regs er Stays keeps n (work s m).0 (work s m).1 (keeps.kept s m now)

  -- If the event ring has a front whatever the controller does from now on, the loop that prints
  -- the events does not end with any fuel.
  pub print_events_forever :
      (fuel regs : ℕ) (er : EventRing.Manager) (Stays : State → Memory → Type 0) (w : Machine State)
      → KeepsFront regs er Stays
      → Stays w.ports w.memory
      → print_events io work frame fuel regs er w ≡ Outcome.out_of_fuel
  unfolding print_events
  print_events_forever zero regs er Stays w keeps now = refl
  print_events_forever (suc fuel) regs er Stays w keeps now =
      rw (keeps.has_front _ _ (keeps.kept w.ports w.memory now)) (
        print_events_forever fuel regs er Stays _ keeps
          (keeps_worked regs er Stays keeps 7 w.ports w.memory now))
