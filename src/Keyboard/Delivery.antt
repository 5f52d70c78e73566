-- ===== src/Keyboard/Delivery.antt =====
-- Which scan codes reach the loop, and in which order.
use seccamp_os.Base.{
  ℕ, ◌≤◌, ◌≡◌, refl, arith, List, [], ◌∷◌, ◌++◌, append_assoc, length, length-append, ◌==◌, u8,
  Bool-cases, inl, inr, ◌∙◌, sym,
}
use seccamp_os.Keyboard.{capacity}
use seccamp_os.Keyboard.Loop
use seccamp_os.Keyboard.Loop.{Pc, Event, System}
use seccamp_os.Keyboard.Abstract
use seccamp_os.Keyboard.Abstract.{Keys, critical}
use seccamp_os.Keyboard.Related.{Related, init-Related, Ready}
use seccamp_os.Keyboard.Refine.{run-Related, step-Related}
use seccamp_os.Queue.Refine.{Represents}

-- The scan codes of a schedule, behind those that have come before.
abbrev pub received : List ℕ → List Event → List ℕ
received before [] = before
received before (Event.interrupt dat ∷ es) = received (before ++ (u8 dat ∷ [])) es
received before (Event.tick ∷ es) = received before es

-- `all` falls into the codes `kept` and the codes `missed`, each in the order of `all`.
pub data Splits : List ℕ → List ℕ → List ℕ → Type 0 where
  none_yet : Splits [] [] []
  keep :
      {all kept missed : List ℕ} (x : ℕ)
      → Splits all kept missed
      → Splits (all ++ (x ∷ [])) (kept ++ (x ∷ [])) missed
  miss :
      {all kept missed : List ℕ} (x : ℕ)
      → Splits all kept missed
      → Splits (all ++ (x ∷ [])) kept (missed ++ (x ∷ []))

-- The code that is out of the queue and not handled yet.
abbrev pub in_flight : Pc → List ℕ
in_flight (Pc.unlocking key) = key ∷ []
in_flight (Pc.handling key) = key ∷ []
in_flight _ = []

pub record Account (all : List ℕ) (k : Keys) : Type 0 where
  pub kept : List ℕ
  pub missed : List ℕ
  pub splits : Splits all kept missed
  pub order : kept ≡ k.handled ++ (in_flight k.pc ++ k.pending)
  pub lost : k.lost ≤ length missed

in_flight-wake : (pc : Pc) → in_flight (Loop.wake pc) ≡ in_flight pc
in_flight-wake Pc.halted = refl
in_flight-wake _ = refl

interrupt-Account :
    (dat : ℕ) {all : List ℕ} {k : Keys}
    → Account all k
    → Account (all ++ (u8 dat ∷ [])) (Abstract.step (Event.interrupt dat) k)
unfolding Abstract.step
interrupt-Account dat {all} {k} a = elim (Bool-cases (critical k.pc)) [
  | inl held ↦ rw held (record {
    kept = a.kept;
    missed = a.missed ++ (u8 dat ∷ []);
    splits = miss (u8 dat) a.splits;
    order = a.order ∙ rw in_flight-wake;
    lost = omega (arith, a.lost, length-append a.missed (u8 dat ∷ []));
  })
  | inr free ↦ elim (Bool-cases (length k.pending == capacity)) [
    | inl is_full ↦
        rw (free, is_full)
          (record {
            kept = a.kept;
            missed = a.missed ++ (u8 dat ∷ []);
            splits = miss (u8 dat) a.splits;
            order = a.order ∙ rw in_flight-wake;
            lost = omega (arith, a.lost, length-append a.missed (u8 dat ∷ []));
          })
    | inr room ↦
        rw (free, room)
          (record {
            kept = a.kept ++ (u8 dat ∷ []);
            missed = a.missed;
            splits = keep (u8 dat) a.splits;
            order = rw (in_flight-wake, a.order) (simp append_assoc);
            lost = a.lost;
          })
  ]
]

-- A step that leaves the codes in order and the count of lost ones as it is.
reorder :
    {all : List ℕ} {k : Keys} (k' : Keys)
    → Account all k
    → k'.lost ≡ k.lost
    → k'.handled ++ (in_flight k'.pc ++ k'.pending) ≡ k.handled ++ (in_flight k.pc ++ k.pending)
    → Account all k'
reorder k' a lost order = record {
  kept = a.kept;
  missed = a.missed;
  splits = a.splits;
  order = a.order ∙ sym order;
  lost = rw lost a.lost;
}

in_flight-look : (keys : List ℕ) → in_flight (Abstract.look keys) ≡ []
in_flight-look [] = refl
in_flight-look (key ∷ keys) = refl

in_flight-take : (keys : List ℕ) → in_flight (Abstract.take keys) ≡ []
in_flight-take [] = refl
in_flight-take (key ∷ keys) = refl

tick-order :
    (pc : Pc) (k : Keys)
    → k.pc ≡ pc
    → Ready pc k.pending
    → let k' = Abstract.tick_at pc k in
      (k'.lost ≡ k.lost)
      × (k'.handled ++ (in_flight k'.pc ++ k'.pending) ≡ k.handled ++ (in_flight pc ++ k.pending))
tick-order Pc.locking k e h = (refl, refl)
tick-order Pc.counting k e h = (refl, rw (in_flight-look k.pending))
tick-order Pc.leaving k e h = (refl, refl)
tick-order Pc.sleeping k e h = (refl, refl)
tick-order Pc.halted k e h = (refl, rw e)
tick-order Pc.fronting k e h = (refl, rw (in_flight-take k.pending))
tick-order (Pc.popping key) k e (keys, front) = (refl, rw front)
tick-order (Pc.unlocking key) k e h = (refl, refl)
tick-order (Pc.handling key) k e h = (refl, append_assoc k.handled (key ∷ []) k.pending)
tick-order Pc.fault k e h = absurd h

step-Account :
    (e : Event) {all : List ℕ} {k : Keys}
    → Ready k.pc k.pending
    → Account all k
    → Account (received all (e ∷ [])) (Abstract.step e k)
step-Account (Event.interrupt dat) ready a = interrupt-Account dat a
step-Account Event.tick {k} ready a =
    let (lost, order) = tick-order k.pc k refl ready in
    unfold Abstract.step in reorder (Abstract.tick_at k.pc k) a lost order

received-cons :
    (before : List ℕ) (e : Event) (es : List Event)
    → received before (e ∷ es) ≡ received (received before (e ∷ [])) es
received-cons before (Event.interrupt dat) es = refl
received-cons before Event.tick es = refl

run-Account :
    (es : List Event) {all : List ℕ} {s : System} {k : Keys}
    → Related s k
    → Account all k
    → Account (received all es) (Abstract.run es k)
unfolding Abstract.run
run-Account [] r a = a
run-Account (e ∷ es) {all} r a =
    rw (received-cons all e es) (run-Account es (step-Related e r) (step-Account e r.ready a))

-- Under any schedule every scan code that the handler has read is either kept or missed. Those
-- kept are, in the order of arrival, the codes that the loop has handled, the one that it has in
-- hand, and the codes that the array queue holds; `num_lostkey` is at most the number missed.
pub delivery :
    (es : List Event)
    → let s = Loop.run es Loop.init in
      (kept missed pending : List ℕ) × Splits (received [] es) kept missed
      × Represents capacity s.shared.keydat pending
      × (kept ≡ s.handled ++ (in_flight s.pc ++ pending))
      × (s.shared.num_lostkey ≤ length missed)
delivery es =
    let r = run-Related es init-Related in
    let a = run-Account es init-Related start in
    (
      a.kept,
      a.missed,
      (Abstract.run es Abstract.init).pending,
      a.splits,
      r.queue,
      rw (r.handled, r.pc) a.order,
      rw r.lost a.lost,
    )
  where
    start : Account [] Abstract.init
    start = record { kept = []; missed = []; splits = none_yet; order = refl; lost = omega arith }
