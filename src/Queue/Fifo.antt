-- ===== src/Queue/Fifo.antt =====
-- What `ArrayQueue` promises: a FIFO of at most `n` elements, oldest first.
use seccamp_os.Base.{ℕ, List, [], ◌∷◌, ◌++◌, Option, none, some, ◌==◌, if◌then◌else◌, length}
use seccamp_os.ErrorCode.{Error, success, full, empty}

pub data Op {ℓ} (A : Type ℓ) : Type ℓ where
  put : A → Op A
  get : Op A

-- What a client sees of a call: the error code, the count after it, and the front after it, which
-- may be read if the count is not 0.
pub record Reply {ℓ} (A : Type ℓ) : Type ℓ where
  pub code : Error
  pub size : ℕ
  pub head : Option A

module _ {ℓ} {A : Type ℓ} where
  unfoldable pub push : ℕ → A → List A → Error × List A
  push n x q = if length q == n then (full, q) else (success, q ++ (x ∷ []))

  unfoldable pub pop : List A → Error × List A
  pop [] = (empty, [])
  pop (x ∷ q) = (success, q)

  unfoldable pub front : List A → Option A
  front [] = none
  front (x ∷ q) = some x

  abbrev pub reply : Error → List A → Reply A
  reply e q = record { code = e; size = length q; head = front q }

  unfoldable pub run : ℕ → List (Op A) → List A → List (Reply A)
  run n [] q = []
  run n (Op.put x ∷ ops) q = let (e, q') = push n x q in reply e q' ∷ run n ops q'
  run n (Op.get ∷ ops) q = let (e, q') = pop q in reply e q' ∷ run n ops q'
