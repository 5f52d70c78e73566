-- ===== src/Keyboard/Refine.antt =====
-- The handler and the loop, over the array queue and the mutex, do what `Abstract` says.
use seccamp_os.Base.{
  ℕ, ◌≡◌, ◌≢◌, refl, arith, true, none, some, List, [], ◌∷◌, ◌++◌, ◌==◌, if◌then◌else◌, length, ap,
  ap₂, subst, sym, ◌∙◌,
}
use seccamp_os.Queue
use seccamp_os.Queue.{ArrayQueue}
use seccamp_os.Queue.Fifo
use seccamp_os.Queue.Refine.{Represents, pop_refines}
use seccamp_os.Mutex
use seccamp_os.Mutex.{SpinLockMutex}
use seccamp_os.Keyboard.Decode.{decode}
use seccamp_os.Keyboard.{capacity}
use seccamp_os.Keyboard.Loop.{Pc, System, Event, wake, type_char}
use seccamp_os.Keyboard.Loop
use seccamp_os.Keyboard.Abstract.{Keys, critical}
use seccamp_os.Keyboard.Abstract
use seccamp_os.Keyboard.Related.{Ready, Related, init-Related, interrupt-Related}

look_lem :
    (keys : List ℕ) (n : ℕ)
    → length keys ≡ n
    → (if n == 0 then Pc.leaving else Pc.fronting) ≡ Abstract.look keys
look_lem [] n e = ground arith
look_lem (key ∷ keys) n e = ground arith

Ready-look : (keys : List ℕ) → Ready (Abstract.look keys) keys
Ready-look [] = tt
Ready-look (key ∷ keys) = λ e. cc

front_lem :
    (q : ArrayQueue ℕ) (keys : List ℕ)
    → keys ≢ []
    → Represents capacity q keys
    → (elim (Queue.front q) [ none ↦ Pc.fault | some key ↦ Pc.popping key ]) ≡ Abstract.take keys
unfolding Queue.front
front_lem q [] ne r = absurd (ne refl)
front_lem q (key ∷ keys) ne r = rw r.holds.0

Ready-take : (keys : List ℕ) → keys ≢ [] → Ready (Abstract.take keys) keys
Ready-take [] ne = absurd (ne refl)
Ready-take (key ∷ keys) ne = (keys, refl)

rest_lem : (keys : List ℕ) → (Fifo.pop keys).1 ≡ Abstract.rest keys
unfolding Fifo.pop
rest_lem [] = refl
rest_lem (key ∷ keys) = refl

not_fault : (pc : Pc) (keys : List ℕ) → pc ≡ Pc.fault → Ready pc keys → ⊥
not_fault pc keys e h = subst (λ p. Ready p keys) e h

-- A step that moves the loop on and touches at most the mutex.
moved :
    {s : System} {k : Keys} (m : SpinLockMutex) (p q : Pc)
    → Related s k
    → m.flag ≡ (if critical q then 1 else 0)
    → p ≡ q
    → Ready q k.pending
    → Related
        (record s { shared = record (s.shared) { keydat_mutex = m }; pc = p })
        (record k { pc = q })
moved m p q r flag pc ready = record {
  queue = r.queue;
  flag = flag;
  lost = r.lost;
  pc = pc;
  shifted = r.shifted;
  typed = r.typed;
  handled = r.handled;
  ready = ready;
}

critical-look : (keys : List ℕ) → critical (Abstract.look keys) ≡ true
critical-look [] = refl
critical-look (key ∷ keys) = refl

critical-take : (keys : List ℕ) → keys ≢ [] → critical (Abstract.take keys) ≡ true
critical-take [] ne = absurd (ne refl)
critical-take (key ∷ keys) ne = refl

tick-Related :
    (pc : Pc) {s : System} {k : Keys}
    → k.pc ≡ pc
    → Related s k
    → Related (Loop.tick_at pc s) (Abstract.tick_at pc k)
unfolding Mutex.lock_round Mutex.unlock Queue.count
tick-Related Pc.locking {s} {k} e r =
    let down : s.shared.keydat_mutex.flag ≡ 0 = ground (arith, r.flag) in
    rw down (moved (record { flag = 1 }) Pc.counting Pc.counting r refl refl tt)
tick-Related Pc.counting {s} {k} e r =
    moved s.shared.keydat_mutex _ (Abstract.look k.pending) r
      (rw (critical-look k.pending) (ground (arith, r.flag)))
      (look_lem k.pending s.shared.keydat.count r.queue.size) (Ready-look k.pending)
tick-Related Pc.leaving e r = moved (record { flag = 0 }) Pc.sleeping Pc.sleeping r refl refl tt
tick-Related Pc.sleeping {s} e r =
    moved s.shared.keydat_mutex Pc.halted Pc.halted r (ground (arith, r.flag)) refl tt
tick-Related Pc.halted e r = r
tick-Related Pc.fronting {s} {k} e r =
    let ne : k.pending ≢ [] = subst (λ p. Ready p k.pending) e r.ready in
    moved s.shared.keydat_mutex _ (Abstract.take k.pending) r
      (rw (critical-take k.pending ne) (ground (arith, r.flag)))
      (front_lem s.shared.keydat k.pending ne r.queue) (Ready-take k.pending ne)
tick-Related (Pc.popping key) {s} {k} e r = record {
  queue = rw rest_lem at ((pop_refines capacity r.queue).1);
  flag = ground (arith, r.flag);
  lost = r.lost;
  pc = refl;
  shifted = r.shifted;
  typed = r.typed;
  handled = r.handled;
  ready = tt;
}
tick-Related (Pc.unlocking key) e r =
    moved (record { flag = 0 }) (Pc.handling key) (Pc.handling key) r refl refl tt
tick-Related (Pc.handling key) {s} {k} e r = record {
  queue = r.queue;
  flag = ground (arith, r.flag);
  lost = r.lost;
  pc = refl;
  shifted = ap (λ b. (decode b key).0) r.shifted;
  typed = ap₂ (λ b typed. type_char (decode b key).1 typed) r.shifted r.typed;
  handled = ap (λ keys. keys ++ (key ∷ [])) r.handled;
  ready = tt;
}
tick-Related Pc.fault e r = r

pub step-Related :
    (e : Event) {s : System} {k : Keys} → Related s k → Related (Loop.step e s) (Abstract.step e k)
step-Related (Event.interrupt dat) r = interrupt-Related dat r
step-Related Event.tick {s} {k} r =
    unfold Loop.step Abstract.step in
    subst (λ p. Related (Loop.tick_at p s) (Abstract.tick_at k.pc k)) (sym r.pc)
      (tick-Related k.pc refl r)

-- Every schedule of interrupts and steps of the loop keeps the two related.
pub run-Related :
    (es : List Event) {s : System} {k : Keys}
    → Related s k
    → Related (Loop.run es s) (Abstract.run es k)
unfolding Loop.run Abstract.run
run-Related [] r = r
run-Related (e ∷ es) r = run-Related es (step-Related e r)

-- Started from zeroed globals and under any schedule of interrupts and steps of the main loop,
-- the array queue and the mutex behave as the list and the lock of the abstract keyboard: the two
-- count the same keys as lost, handle the same scan codes and type the same characters, and the
-- loop never reads outside the array.
pub keyboard_refines :
    (es : List Event)
    → let s = Loop.run es Loop.init in
      let k = Abstract.run es Abstract.init in Related s k × (s.pc ≢ Pc.fault)
keyboard_refines es =
    let r = run-Related es init-Related in (r, λ e. not_fault _ _ (sym r.pc ∙ e) r.ready)
