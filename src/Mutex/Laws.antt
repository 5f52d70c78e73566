-- ===== src/Mutex/Laws.antt =====
-- What each operation of the mutex does with nobody else running.
use seccamp_os.Base.{
  ℕ, zero, suc, true, false, not, none, some, ◌≡◌, ◌⊎◌, refl, arith, if◌then◌else◌,
}
use seccamp_os.Mutex.{SpinLockMutex, lock, try_lock, is_locked, with_guard}

-- `flag_` holds one of the two values that the class writes.
pub record IsValid (m : SpinLockMutex) : Type 0 where
  pub two_valued : (m.flag ≡ 0) ⊎ (m.flag ≡ 1)

-- On a mutex whose flag is 0 or 1, `TryLock` succeeds exactly if the mutex is not locked; in both
-- cases the mutex is locked after it, and its flag is 0 or 1.
pub try_lock_lem :
    (m : SpinLockMutex)
    → IsValid m
    → ((try_lock m).0 ≡ not (is_locked m))
      × (is_locked (try_lock m).1 ≡ true)
      × IsValid (try_lock m).1
unfolding try_lock is_locked
try_lock_lem m v = ground arith

-- A locked mutex is never taken, and a free one in the first round.
lock_locked : (fuel : ℕ) (m : SpinLockMutex) → m.flag ≡ 1 → lock fuel m ≡ none
unfolding lock
lock_locked zero m e = refl
lock_locked (suc fuel) m e = rw e (lock_locked fuel (record { flag = 1 }) refl)

lock_free :
    (fuel : ℕ) (m : SpinLockMutex) → m.flag ≡ 0 → lock (suc fuel) m ≡ some (record { flag = 1 })
unfolding lock
lock_free fuel m e = rw e

-- On a mutex whose flag is 0 or 1 and with nobody else running, a locked mutex keeps `Lock`
-- spinning for any number of rounds, and a free one is taken in the first round.
pub lock_lem :
    (fuel : ℕ) (m : SpinLockMutex)
    → IsValid m
    → lock (suc fuel) m ≡ (if is_locked m then none else some (record { flag = 1 }))
unfolding is_locked
lock_lem fuel m v = ground (arith, lock_locked (suc fuel) m, lock_free fuel m)

-- On a free mutex a block under a `LockGuard` runs with the mutex locked, returns what its body
-- returns, and leaves the mutex free, whatever the body did with it.
pub with_guard-unlocks {ℓ} :
    {A : Type ℓ} (fuel : ℕ) (body : SpinLockMutex → A × SpinLockMutex) (m : SpinLockMutex)
    → IsValid m
    → is_locked m ≡ false
    → (with_guard (suc fuel) body m ≡ some ((body (record { flag = 1 })).0, record { flag = 0 }))
unfolding with_guard
with_guard-unlocks fuel body m v free = ground (arith, lock_lem fuel m v)
