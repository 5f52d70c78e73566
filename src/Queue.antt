-- ===== src/Queue.antt =====
-- queue.hpp: `ArrayQueue<T, N>`, a ring of `N` elements in an array. `Push` and `Pop` return the
-- new object beside the error code; the `size_t` counters wrap at 2 ^ 64.
pub mod Valid
pub mod Fifo
pub mod Refine
use seccamp_os.Base.{ℕ, ◌+◌, ◌-◌, ◌%◌, ◌^◌, List, Option, ◌==◌, if◌then◌else◌, get_elem?, set, u64}
use seccamp_os.ErrorCode.{Error, success, full, empty}

pub record ArrayQueue {ℓ} (A : Type ℓ) : Type ℓ where
  pub slots : List A
  pub read_pos : ℕ
  pub write_pos : ℕ
  pub count : ℕ

-- The constructor. It sets the two positions and leaves `data_` and `count_` as the storage has
-- them.
unfoldable pub construct {ℓ} : {A : Type ℓ} → ArrayQueue A → ArrayQueue A
construct storage = record storage { read_pos = 0; write_pos = 0 }

-- `++pos; if (pos == N) pos = 0;`
abbrev pub advance : ℕ → ℕ → ℕ
advance n pos = if u64 (pos + 1) == n then 0 else u64 (pos + 1)

module _ {ℓ} {A : Type ℓ} (n : ℕ) where
  unfoldable pub push : A → ArrayQueue A → Error × ArrayQueue A
  push value q = if q.count == n then (full, q) else (
    success,
    record q {
      slots = set q.slots q.write_pos value;
      count = u64 (q.count + 1);
      write_pos = advance n q.write_pos;
    },
  )

  -- `--count_` runs only at a count that is not 0.
  unfoldable pub pop : ArrayQueue A → Error × ArrayQueue A
  pop q =
      if q.count == 0
      then (empty, q)
      else (success, record q { count = q.count - 1; read_pos = advance n q.read_pos })

unfoldable pub count {ℓ} : {A : Type ℓ} → ArrayQueue A → ℕ
count q = q.count

-- `none` is a read outside the array.
unfoldable pub front {ℓ} : {A : Type ℓ} → ArrayQueue A → Option A
front q = get_elem? q.slots q.read_pos
