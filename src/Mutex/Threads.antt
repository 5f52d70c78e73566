-- ===== src/Mutex/Threads.antt =====
-- Any number of threads that run `incrementer` of test/test_mutex.cpp: `Lock`, `++shared_counter`
-- as a load and a store, `Unlock`, `max` times over. The threads interleave at every access to
-- shared memory.
pub mod Exclusion
pub mod Counter
use seccamp_os.Base.{ℕ, ◌+◌, ◌<◌, ◌≡◌, Bool, true, false, u32, ◌==◌, if◌then◌else◌}
use seccamp_os.Mutex.{SpinLockMutex, construct, lock_round, unlock}

pub data Pc : Type 0 where
  spin : Pc  -- the head of the `for` loop and the `while` of `Lock`
  entered : Pc
  loaded : (value : ℕ) → Pc  -- `shared_counter` is in a register
  stored : Pc  -- before `Unlock`

-- A thread and its loop variable `i`.
pub record Thread : Type 0 where
  pub pc : Pc
  pub i : ℕ

pub record Shared : Type 0 where
  pub mutex : SpinLockMutex
  pub counter : ℕ

pub record System : Type 0 where
  pub shared : Shared
  pub threads : ℕ → Thread

abbrev pub update : (ℕ → Thread) → ℕ → Thread → ℕ → Thread
update f k t j = if k == j then t else f j

pub data Move (max : ℕ) (s : Shared) : Thread → Shared → Thread → Type 0 where
  try :
      {i : ℕ}
      → i < max
      → Move max s
          (record { pc = Pc.spin; i = i })
          (record s { mutex = (lock_round s.mutex).1 })
          (record { pc = if (lock_round s.mutex).0 then Pc.spin else Pc.entered; i = i })
  load :
      {i : ℕ}
      → Move max s
          (record { pc = Pc.entered; i = i })
          s
          (record { pc = Pc.loaded s.counter; i = i })
  store :
      {i value : ℕ}
      → Move max s
          (record { pc = Pc.loaded value; i = i })
          (record s { counter = u32 (value + 1) })
          (record { pc = Pc.stored; i = i })
  release :
      {i : ℕ}
      → Move max s
          (record { pc = Pc.stored; i = i })
          (record s { mutex = unlock s.mutex })
          (record { pc = Pc.spin; i = i + 1 })

pub data Step (n max : ℕ) (s : System) : System → Type 0 where
  pick :
      (k : ℕ) {shared : Shared} {t : Thread}
      → k < n
      → Move max s.shared (s.threads k) shared t
      → Step n max s (record { shared = shared; threads = update s.threads k t })

abbrev pub init : System
init = record {
  shared = record { mutex = construct; counter = 0 };
  threads = λ _. record { pc = Pc.spin; i = 0 };
}

pub data Reach (n max : ℕ) : System → Type 0 where
  start : Reach n max init
  later : {s t : System} → Reach n max s → Step n max s t → Reach n max t

-- From the return of `Lock` to the write in `Unlock`.
abbrev pub critical : Pc → Bool
critical Pc.spin = false
critical _ = true
