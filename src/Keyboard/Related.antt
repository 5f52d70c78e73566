-- ===== src/Keyboard/Related.antt =====
-- main.cpp: how the globals and the loop stand to the abstract keyboard, and that the handler keeps
-- them so.
use seccamp_os.Base.{
  ℕ, ◌+◌, ◌≡◌, ◌≢◌, refl, arith, true, false, List, [], ◌∷◌, ◌++◌, ◌==◌, if◌then◌else◌, length, u8,
  u32, Bool-cases, inl, inr, ap,
}
use seccamp_os.Queue
use seccamp_os.Queue.{ArrayQueue}
use seccamp_os.Queue.Fifo
use seccamp_os.Queue.Refine.{Represents, push_refines}
use seccamp_os.Keyboard.{capacity, deliver}
use seccamp_os.Keyboard.Loop.{Pc, System, Event, wake, type_char}
use seccamp_os.Keyboard.Loop
use seccamp_os.Keyboard.Abstract.{Keys, critical}
use seccamp_os.Keyboard.Abstract

-- What the list of waiting codes is at each place of the loop.
abbrev pub Ready : Pc → List ℕ → Type 0
Ready Pc.fronting keys = keys ≢ []
Ready (Pc.popping key) keys = (rest : List ℕ) × (keys ≡ key ∷ rest)
Ready Pc.fault keys = ⊥
Ready _ keys = Unit

pub record Related (s : System) (k : Keys) : Type 0 where
  pub queue : Represents capacity s.shared.keydat k.pending
  pub flag : s.shared.keydat_mutex.flag ≡ (if critical k.pc then 1 else 0)
  pub lost : s.shared.num_lostkey ≡ k.lost
  pub pc : s.pc ≡ k.pc
  pub shifted : s.shifted ≡ k.shifted
  pub typed : s.typed ≡ k.typed
  pub handled : s.handled ≡ k.handled
  pub ready : Ready k.pc k.pending

pub init-Related : Related Loop.init Abstract.init
unfolding Queue.construct
init-Related = record {
  queue = record {
    valid = record {
      storage = refl;
      small = omega arith;
      read_in = omega arith;
      write_in = omega arith;
      count_in = omega arith;
      apart = inl refl;
    };
    size = refl;
    holds = tt;
  };
  flag = refl;
  lost = refl;
  pc = refl;
  shifted = refl;
  typed = refl;
  handled = refl;
  ready = tt;
}

critical-wake : (pc : Pc) → critical (wake pc) ≡ critical pc
critical-wake Pc.halted = refl
critical-wake _ = refl

-- An interrupt outside the critical section may change the list, and one inside does not.
Ready-wake_free :
    (pc : Pc) (keys keys' : List ℕ) → critical pc ≡ false → Ready pc keys → Ready (wake pc) keys'
Ready-wake_free Pc.fault keys keys' e h = h
Ready-wake_free Pc.counting keys keys' e h = tt
Ready-wake_free Pc.fronting keys keys' e h = absurd (ground arith)
Ready-wake_free (Pc.popping key) keys keys' e h = absurd (ground arith)
Ready-wake_free _ keys keys' e h = tt

Ready-wake_held :
    (pc : Pc) (keys : List ℕ) → critical pc ≡ true → Ready pc keys → Ready (wake pc) keys
Ready-wake_held Pc.halted keys e h = tt
Ready-wake_held _ keys e h = h

module _ {s : System} {k : Keys} (r : Related s k) where
  deliver_held :
      (dat : ℕ)
      → critical k.pc ≡ true
      → Related (Loop.step (Event.interrupt dat) s) (Abstract.step (Event.interrupt dat) k)
  unfolding Loop.step Abstract.step deliver
  deliver_held dat held =
      let up : s.shared.keydat_mutex.flag ≡ 1 = ground (arith, r.flag) in
      rw (up, held)
        (record {
          queue = r.queue;
          flag = ground (arith, critical-wake k.pc);
          lost = ap (λ n. u32 (n + 1)) r.lost;
          pc = ap wake r.pc;
          shifted = r.shifted;
          typed = r.typed;
          handled = r.handled;
          ready = Ready-wake_held k.pc k.pending held r.ready;
        })

  push_pending :
      (dat : ℕ)
      → (if length k.pending == capacity then k else record k { pending = k.pending ++ (dat ∷ []) })
        ≡ record k { pending = (Fifo.push capacity dat k.pending).1 }
  unfolding Fifo.push
  push_pending dat = ground arith

  deliver_free :
      (dat : ℕ)
      → critical k.pc ≡ false
      → Related (Loop.step (Event.interrupt dat) s) (Abstract.step (Event.interrupt dat) k)
  unfolding Loop.step Abstract.step deliver
  deliver_free dat free =
      let down : s.shared.keydat_mutex.flag ≡ 0 = ground (arith, r.flag) in
      rw (down, free, push_pending (u8 dat))
        (record {
          queue = (push_refines capacity (u8 dat) r.queue).1;
          flag = ground (arith, critical-wake k.pc);
          lost = r.lost;
          pc = ap wake r.pc;
          shifted = r.shifted;
          typed = r.typed;
          handled = r.handled;
          ready = Ready-wake_free k.pc k.pending _ free r.ready;
        })

pub interrupt-Related :
    (dat : ℕ) {s : System} {k : Keys}
    → Related s k
    → Related (Loop.step (Event.interrupt dat) s) (Abstract.step (Event.interrupt dat) k)
interrupt-Related dat {s} {k} r = elim (Bool-cases (critical k.pc)) [
  | inl held ↦ deliver_held r dat held
  | inr free ↦ deliver_free r dat free
]
