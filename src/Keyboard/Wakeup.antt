-- ===== src/Keyboard/Wakeup.antt =====
-- What the handler and the loop leave undone.
use seccamp_os.Base.{
  ℕ, zero, suc, ◌+◌, ◌≤◌, ◌<◌, ◌≡◌, refl, arith, List, [], ◌∷◌, ◌++◌, length, length-append,
  append-nil, append_assoc, map, u8, replicate, ◌∙◌, sym, ap, subst, min,
}
use seccamp_os.Keyboard.{capacity}
use seccamp_os.Keyboard.Loop.{Pc, Event, wake, step, run, init}
use seccamp_os.Keyboard.Abstract
use seccamp_os.Keyboard.Abstract.{Keys}
use seccamp_os.Keyboard.Related.{init-Related}
use seccamp_os.Keyboard.Refine.{run-Related}
use seccamp_os.Queue.Refine.{Represents}

-- Codes that arrive while `hlt` is the next instruction wait in the queue.
waits :
    (dats : List ℕ) (k : Keys)
    → k.pc ≡ Pc.sleeping
    → length k.pending + length dats ≤ capacity
    → let k' = Abstract.run (map Event.interrupt dats) k in
      (k'.pc ≡ Pc.sleeping)
      × (k'.pending ≡ k.pending ++ map u8 dats)
      × (k'.lost ≡ k.lost)
      × (k'.handled ≡ k.handled)
unfolding Abstract.run
waits [] k e room = (e, sym (append-nil k.pending), refl, refl)
waits (dat ∷ dats) k e room =
    let (pc, pending, lost, handled) = waits_one dat k e (omega arith) in
    let size : length (Abstract.step (Event.interrupt dat) k).pending ≡ length k.pending + 1 =
      ap length pending ∙ length-append k.pending (u8 dat ∷ []) in
    let rest = waits dats (Abstract.step (Event.interrupt dat) k) pc (omega arith) in
    (
      rest.0,
      rest.1
          ∙ ap (λ l. l ++ map u8 dats) pending
          ∙ append_assoc k.pending (u8 dat ∷ []) (map u8 dats),
      rest.2 ∙ lost,
      rest.3 ∙ handled,
    )
  where
    waits_one :
        (dat : ℕ) (k : Keys)
        → k.pc ≡ Pc.sleeping
        → length k.pending < capacity
        → let k' = Abstract.step (Event.interrupt dat) k in
          (k'.pc ≡ Pc.sleeping)
          × (k'.pending ≡ k.pending ++ (u8 dat ∷ []))
          × (k'.lost ≡ k.lost)
          × (k'.handled ≡ k.handled)
    waits_one dat k e room = unfold Abstract.step in ground arith

-- A tick at `hlt` halts the processor, and further ones change nothing.
halts :
    (n : ℕ) (k : Keys)
    → k.pc ≡ Pc.sleeping
    → Abstract.run (Event.tick ∷ replicate n Event.tick) k ≡ record k { pc = Pc.halted }
unfolding Abstract.run
halts n k e = rw (Abstract.step, e) (stays_halted n k)
  where
    stays_halted :
        (n : ℕ) (k : Keys)
        → Abstract.run (replicate n Event.tick) (record k { pc = Pc.halted })
          ≡ record k { pc = Pc.halted }
    stays_halted zero k = refl
    stays_halted (suc n) k = stays_halted n k

run-append :
    (es fs : List Event) (k : Keys)
    → Abstract.run (es ++ fs) k ≡ Abstract.run fs (Abstract.run es k)
unfolding Abstract.run
run-append [] fs k = refl
run-append (e ∷ es) fs k = run-append es fs (Abstract.step e k)

-- Whenever, under any schedule, the loop has released the lock and stands before its `hlt`, and
-- then scan codes arrive that the queue has room for, the processor halts with these codes behind
-- those that wait: after any number of further steps without an interrupt it is still halted,
-- none of them is handled or counted as lost, and the next interrupt lets the loop go on.
pub lost_wakeup :
    (es : List Event) (dats : List ℕ) (n next : ℕ)
    → let s = run es init in
      let s' = run (map Event.interrupt dats ++ (Event.tick ∷ replicate n Event.tick)) s in
      s.pc ≡ Pc.sleeping
      → s.shared.keydat.count + length dats ≤ capacity
      → (before : List ℕ) × Represents capacity s.shared.keydat before
        × Represents capacity s'.shared.keydat (before ++ map u8 dats)
        × (s'.pc ≡ Pc.halted)
        × (s'.shared.num_lostkey ≡ s.shared.num_lostkey)
        × (s'.handled ≡ s.handled)
        × ((step (Event.interrupt next) s').pc ≡ Pc.locking)
unfolding step
lost_wakeup es dats n next asleep room =
    let s = run es init in
    let k = Abstract.run es Abstract.init in
    let r = run-Related es init-Related in
    let last : List Event = Event.tick ∷ replicate n Event.tick in
    let r' = run-Related (map Event.interrupt dats ++ last) r in
    let (pc, pending, lost, handled) =
      waits dats k (sym r.pc ∙ asleep) (omega (arith, r.queue.size)) in
    let k₁ = Abstract.run (map Event.interrupt dats) k in
    let ends : Abstract.run (map Event.interrupt dats ++ last) k ≡ record k₁ { pc = Pc.halted } =
      run-append (map Event.interrupt dats) last k ∙ halts n k₁ pc in
    let halted = r'.pc ∙ ap (λ t. t.pc) ends in
    (
      k.pending,
      r.queue,
      subst (λ t. Represents capacity (run (map Event.interrupt dats ++ last) s).shared.keydat t)
          (ap (λ t. t.pending) ends ∙ pending) r'.queue,
      halted,
      r'.lost ∙ ap (λ t. t.lost) ends ∙ lost ∙ sym r.lost,
      r'.handled ∙ ap (λ t. t.handled) ends ∙ handled ∙ sym r.handled,
      ap wake halted,
    )

arrives :
    (dat : ℕ) (k : Keys)
    → k.pc ≡ Pc.locking
    → length k.pending ≤ capacity
    → let k' = Abstract.step (Event.interrupt dat) k in
      (k'.pc ≡ Pc.locking)
      × (length k'.pending ≡ min capacity (length k.pending + 1))
      × (k'.lost ≡ k.lost)
      × (k'.handled ≡ k.handled)
unfolding Abstract.step
arrives dat k e h = ground (arith, length-append k.pending (u8 dat ∷ []))

filled :
    (dats : List ℕ) (k : Keys)
    → k.pc ≡ Pc.locking
    → length k.pending ≤ capacity
    → let k' = Abstract.run (map Event.interrupt dats) k in
      (length k'.pending ≡ min capacity (length k.pending + length dats))
      × (k'.lost ≡ k.lost)
      × (k'.handled ≡ k.handled)
unfolding Abstract.run
filled [] k e h = (omega arith, refl, refl)
filled (dat ∷ dats) k e h =
    let (pc, size, lost, handled) = arrives dat k e h in
    let rest = filled dats (Abstract.step (Event.interrupt dat) k) pc (omega arith) in
    (omega (arith, rest.0), rest.1 ∙ lost, rest.2 ∙ handled)

-- When at least 16 scan codes arrive before the loop takes one, the queue holds 16, `num_lostkey`
-- is 0 and nothing is handled: the codes that did not fit are not counted as lost.
pub overflow_uncounted :
    (dats : List ℕ)
    → capacity ≤ length dats
    → let s = run (map Event.interrupt dats) init in
      (s.shared.keydat.count ≡ capacity) × (s.shared.num_lostkey ≡ 0) × (s.handled ≡ [])
overflow_uncounted dats many =
    let r = run-Related (map Event.interrupt dats) init-Related in
    let f = filled dats Abstract.init refl (omega arith) in
    (sym r.queue.size ∙ omega (arith, f.0), r.lost ∙ f.1, r.handled ∙ f.2)
