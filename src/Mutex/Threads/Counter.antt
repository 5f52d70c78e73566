-- ===== src/Mutex/Threads/Counter.antt =====
-- No increment of `shared_counter` is lost: it counts the rounds of all threads.
use seccamp_os.Base.{ℕ, zero, suc, ◌+◌, ◌*◌, ◌<◌, ◌≤◌, ◌≡◌, refl, arith, if◌then◌else◌, u32}
use seccamp_os.Mutex.{lock_round}
use seccamp_os.Mutex.Threads.{
  Pc, Thread, Shared, System, update, Move, try, load, store, release, pick, init, Reach, start,
  later,
}
use seccamp_os.Mutex.Threads.Exclusion.{Inv, Reach-Inv}
use native.Mathlib.Decide.{dec_lt}

-- The increments that a thread has written.
abbrev written : Thread → ℕ
written t = elim t.pc [ Pc.stored ↦ t.i + 1 | _ ↦ t.i ]

pub total : ℕ → (ℕ → Thread) → ℕ
total zero f = 0
total (suc n) f = total n f + written (f n)

total-update_above :
    (n : ℕ) (f : ℕ → Thread) (k : ℕ) (t : Thread) → n ≤ k → total n (update f k t) ≡ total n f
unfolding total
total-update_above zero f k t h = refl
total-update_above (suc n) f k t h = ground (arith, total-update_above n f k t)

total-update :
    (n : ℕ) (f : ℕ → Thread) (k : ℕ) (t : Thread)
    → k < n
    → total n (update f k t) + written (f k) ≡ total n f + written t
unfolding total
total-update zero f k t h = absurd (omega arith)
total-update (suc n) f k t h = elim (dec_lt k n) [
  | yes below ↦ ground (arith, total-update n f k t below)
  | no last ↦ ground (arith, total-update_above n f k t)
]

total-init : (n : ℕ) → total n init.threads ≡ 0
unfolding total
total-init zero = refl
total-init (suc n) = omega (arith, total-init n)

-- What the counter and the registers hold.
record Counted (n : ℕ) (s : System) : Type 0 where
  exact : s.shared.counter ≡ u32 (total n s.threads)
  fresh : (k value : ℕ) → (s.threads k).pc ≡ Pc.loaded value → value ≡ s.shared.counter

Move-Counted :
    {n max : ℕ} {s : System} (k : ℕ) {p t : Thread} {shared : Shared}
    → Inv n s
    → Counted n s
    → k < n
    → s.threads k ≡ p
    → Move max s.shared p shared t
    → Counted n (record { shared = shared; threads = update s.threads k t })
Move-Counted {n} {s} k inv c lt e (try {i} room) = record {
  exact = ground (
    arith,
    c.exact,
    total-update n s.threads k
        (record { pc = if (lock_round s.shared.mutex).0 then Pc.spin else Pc.entered; i = i }) lt,
  );
  fresh = λ j v q. ground (arith, c.fresh j v);
}
Move-Counted {n} {s} k inv c lt e (load {i}) = record {
  exact = ground (
    arith,
    c.exact,
    total-update n s.threads k (record { pc = Pc.loaded s.shared.counter; i = i }) lt,
  );
  fresh = λ j v q. ground (arith, c.fresh j v);
}
Move-Counted {n} {s} k inv c lt e (store {i} {value}) = record {
  exact = ground (
    arith,
    c.exact,
    c.fresh k value,
    total-update n s.threads k (record { pc = Pc.stored; i = i }) lt,
  );
  fresh = λ j v q. ground (arith, inv.single j k);
}
Move-Counted {n} {s} k inv c lt e (release {i}) = record {
  exact =
      ground (arith, c.exact, total-update n s.threads k (record { pc = Pc.spin; i = i + 1 }) lt);
  fresh = λ j v q. ground (arith, c.fresh j v);
}

Reach-Counted : {n max : ℕ} {s : System} → Reach n max s → Counted n s
Reach-Counted {n} start = record {
  exact = rw (total-init n);
  fresh = λ k v q. absurd (ground arith);
}
Reach-Counted (later {s} r (pick k lt mv)) =
    Move-Counted k (Reach-Inv r) (Reach-Counted r) lt refl mv

finished :
    (n max : ℕ) (f : ℕ → Thread)
    → ((k : ℕ) → k < n → (f k ≡ record { pc = Pc.spin; i = max }))
    → total n f ≡ n * max
unfolding total
finished zero max f h = omega arith
finished (suc n) max f h =
    ground (arith, finished n max f (λ k lt. h k (omega arith)), h n (omega arith))

-- In every reachable state in which each of `n` threads has run its `max` rounds,
-- `shared_counter` is `n * max` as an `unsigned int`: no increment is lost, whatever the
-- interleaving was.
pub counter_exact :
    {n max : ℕ} {s : System}
    → Reach n max s
    → ((k : ℕ) → k < n → s.threads k ≡ record { pc = Pc.spin; i = max })
    → s.shared.counter ≡ u32 (n * max)
counter_exact {n} {max} {s} r all =
    omega (arith, (Reach-Counted r).exact, finished n max s.threads all)
