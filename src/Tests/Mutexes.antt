-- ===== src/Tests/Mutexes.antt =====
-- mutex.hpp at concrete states, and two threads one of which has incremented the counter.
use seccamp_os.Base.{ℕ, zero, suc, ◌<◌, ◌≡◌, ◌⊎◌, refl, arith, true, false}
use seccamp_os.Mutex.{compare_exchange, lfenced_write, SpinLockMutex, lock_round, unlock}
use seccamp_os.Mutex.Threads.{
  Pc, Thread, Shared, System, update, try, load, store, release, pick, init, Reach, start, later,
  critical,
}
use seccamp_os.Mutex.Threads.Exclusion.{mutual_exclusion, no_deadlock}
use seccamp_os.Mutex.Threads.Counter.{counter_exact}

abbrev taken : SpinLockMutex
taken = record { flag = 1 }

abbrev free : SpinLockMutex
free = record { flag = 0 }

-- Where thread 0 stands after each of its steps.
abbrev after : Shared → Thread → (ℕ → Thread) → System
after shared t threads = record { shared = shared; threads = update threads 0 t }

abbrev entering : System
entering =
    after (record { mutex = taken; counter = 0 }) (record { pc = Pc.entered; i = 0 }) init.threads

abbrev loading : System
loading =
    after (record { mutex = taken; counter = 0 }) (record { pc = Pc.loaded 0; i = 0 })
      entering.threads

abbrev storing : System
storing =
    after (record { mutex = taken; counter = 1 }) (record { pc = Pc.stored; i = 0 }) loading.threads

abbrev leaving : System
leaving =
    after (record { mutex = free; counter = 1 }) (record { pc = Pc.spin; i = 1 }) storing.threads

entering-Reach : (n : ℕ) → 0 < n → Reach n 1 entering
unfolding lock_round compare_exchange
entering-Reach n h = later start (pick 0 h (try (omega arith)))

leaving-Reach : (n : ℕ) → 0 < n → Reach n 1 leaving
unfolding unlock lfenced_write
leaving-Reach n h =
    later
      (later (later (entering-Reach n h) (pick 0 {t = record { pc = Pc.loaded 0; i = 0 }} h load))
        (pick 0 {t = record { pc = Pc.stored; i = 0 }} h (store {value = 0})))
      (pick 0 {t = record { pc = Pc.spin; i = 1 }} h release)

mutual_exclusion_example : ◌≡◌ {A = ℕ} 0 0
mutual_exclusion_example = mutual_exclusion (entering-Reach 2 (omega arith)) 0 0 refl refl

no_deadlock_example :
    ((j : ℕ) × (j < 2) × (critical (entering.threads j).pc ≡ true))
    ⊎ ((lock_round entering.shared.mutex).0 ≡ false)
no_deadlock_example = no_deadlock (entering-Reach 2 (omega arith)) 1 refl

finished : (k : ℕ) → k < 1 → leaving.threads k ≡ record { pc = Pc.spin; i = 1 }
finished zero h = refl
finished (suc k) h = absurd (omega arith)

counter_exact_example : leaving.shared.counter ≡ 1
counter_exact_example = counter_exact (leaving-Reach 1 (omega arith)) finished
