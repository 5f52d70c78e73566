-- ===== src/Queue/Valid.antt =====
-- The representation invariant of `ArrayQueue`, and that every operation keeps it.
use seccamp_os.Base.{ℕ, ◌+◌, ◌^◌, ◌≤◌, ◌<◌, ◌≡◌, ◌↔◌, ◌⊎◌, arith, length, length-set}
use seccamp_os.Queue.{ArrayQueue, construct, push, pop}

-- `write_pos` is `count` places after `read_pos`, going round at `n`.
pub record IsValid {ℓ} {A : Type ℓ} (n : ℕ) (q : ArrayQueue A) : Type 0 where
  pub storage : length q.slots ≡ n
  pub small : n < 2 ^ 64
  pub read_in : q.read_pos < n
  pub write_in : q.write_pos < n
  pub count_in : q.count ≤ n
  pub apart : (q.read_pos + q.count ≡ q.write_pos) ⊎ (q.read_pos + q.count ≡ q.write_pos + n)

module _ {ℓ} {A : Type ℓ} {n : ℕ} where
  -- `Push` keeps the invariant: if the array has `n` elements, both positions lie in it and the
  -- count is the distance between them, the same holds after a `Push`, successful or not.
  pub push-IsValid : (x : A) {q : ArrayQueue A} → IsValid n q → IsValid n (push n x q).1
  unfolding push
  push-IsValid x {q} v = ground (arith, length-set q.slots q.write_pos x)

  -- `Pop` keeps the invariant, successful or not.
  pub pop-IsValid : {q : ArrayQueue A} → IsValid n q → IsValid n (pop n q).1
  unfolding pop
  pop-IsValid v = ground arith

  -- For a capacity that is not 0 and below 2 ^ 64, the constructor leaves a valid queue exactly
  -- if the storage held the count 0 or the count `n`, as it does not set `count_`.
  pub construct-IsValid_iff :
      (s : ArrayQueue A)
      → length s.slots ≡ n
      → 0 < n
      → n < 2 ^ 64
      → IsValid n (construct s) ↔ ((s.count ≡ 0) ⊎ (s.count ≡ n))
  unfolding construct
  construct-IsValid_iff s e pos small = (λ v. to v, λ c. from c)
    where
      to : IsValid n (construct s) → (s.count ≡ 0) ⊎ (s.count ≡ n)
      to v = ground arith

      from : (s.count ≡ 0) ⊎ (s.count ≡ n) → IsValid n (construct s)
      from c = ground arith
