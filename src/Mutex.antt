-- ===== src/Mutex.antt =====
-- mutex.hpp: `SpinLockMutex` and `LockGuard`, over `CompareExchange` and `LFencedWrite` of
-- asmfunc.s. Each of the two is one atomic access to `flag_`.
pub mod Laws
pub mod Threads
use seccamp_os.Base.{ℕ, zero, suc, Bool, Option, none, some, ◌==◌, if◌then◌else◌}
use mathlib.Core.Option

-- `lock cmpxchg`: what is left in `rax`, and the new contents of the cell.
unfoldable pub compare_exchange : ℕ → ℕ → ℕ → ℕ × ℕ
compare_exchange mem expected value = if mem == expected then (expected, value) else (mem, mem)

-- `lfence; mov`: the new contents of the cell.
unfoldable pub lfenced_write : ℕ → ℕ → ℕ
lfenced_write mem value = value

abbrev pub clear : ℕ
clear = 0

abbrev pub flagged : ℕ
flagged = 1

pub record SpinLockMutex : Type 0 where
  pub flag : ℕ

abbrev pub construct : SpinLockMutex
construct = record { flag = 0 }

-- One round of the `while` of `Lock`: whether it goes round again.
unfoldable pub lock_round : SpinLockMutex → Bool × SpinLockMutex
unfolding compare_exchange
lock_round m =
    let (rax, mem) = compare_exchange m.flag clear flagged in
    (flagged == rax, record m { flag = mem })

-- `Lock` with nobody else running; `none` when it still spins after `fuel` rounds.
unfoldable pub lock : ℕ → SpinLockMutex → Option SpinLockMutex
unfolding lock_round
lock zero m = none
lock (suc fuel) m =
    let rest = lock fuel (lock_round m).1 in
    if (lock_round m).0 then rest else some (lock_round m).1

unfoldable pub try_lock : SpinLockMutex → Bool × SpinLockMutex
unfolding compare_exchange
try_lock m =
    let (rax, mem) = compare_exchange m.flag clear flagged in
    (clear == rax, record m { flag = mem })

unfoldable pub unlock : SpinLockMutex → SpinLockMutex
unfolding lfenced_write
unlock m = record m { flag = lfenced_write m.flag clear }

unfoldable pub is_locked : SpinLockMutex → Bool
is_locked m = m.flag == 1

-- A block under a `LockGuard`: the constructor locks, the body runs with the mutex, and the
-- destructor unlocks.
unfoldable pub with_guard {ℓ} :
    {A : Type ℓ}
    → ℕ
    → (SpinLockMutex → A × SpinLockMutex)
    → SpinLockMutex
    → Option (A × SpinLockMutex)
unfolding lock unlock
with_guard fuel body m = Option.map (λ held. ((body held).0, unlock (body held).1)) (lock fuel m)
