-- ===== src/Mutex/Threads/Exclusion.antt =====
-- Who is in the critical section, in every reachable state.
use seccamp_os.Base.{ℕ, ◌<◌, ◌≡◌, ◌⊎◌, inl, inr, refl, arith, true, false}
use seccamp_os.Mutex.{lock_round, unlock}
use seccamp_os.Mutex.Threads.{
  Pc, Thread, Shared, System, update, Move, try, load, store, release, pick, Reach, start, later,
  critical,
}

-- The flag is up exactly while one thread is in the critical section.
pub record Inv (n : ℕ) (s : System) : Type 0 where
  pub flag : (s.shared.mutex.flag ≡ 0) ⊎ (s.shared.mutex.flag ≡ 1)
  pub raised : (k : ℕ) → critical (s.threads k).pc ≡ true → s.shared.mutex.flag ≡ 1
  pub single :
      (j k : ℕ) → critical (s.threads j).pc ≡ true → critical (s.threads k).pc ≡ true → j ≡ k
  pub owned : s.shared.mutex.flag ≡ 1 → (k : ℕ) × (k < n) × (critical (s.threads k).pc ≡ true)

Move-Inv :
    {n max : ℕ} {s : System} (k : ℕ) {p t : Thread} {shared : Shared}
    → Inv n s
    → k < n
    → s.threads k ≡ p
    → Move max s.shared p shared t
    → Inv n (record { shared = shared; threads = update s.threads k t })
unfolding lock_round unlock
Move-Inv {n} {max} {s} k inv lt e (try {i} room) = record {
  flag = ground (arith, inv.flag);
  raised = λ j c. ground (arith, inv.raised j);
  single = λ a b ca cb. ground (arith, inv.raised a, inv.raised b, inv.single a b);
  owned = λ f. elim inv.flag [
    | inl free ↦ (k, lt, ground arith)
    | inr held ↦ let (j, below, inside) = inv.owned held in (j, below, ground (arith, inv.raised k))
  ];
}
Move-Inv {s} k inv lt e (load {i}) = record {
  flag = inv.flag;
  raised = λ j c. ground (arith, inv.raised j, inv.raised k);
  single = λ a b ca cb. ground (arith, inv.single a b, inv.single a k, inv.single k b);
  owned = λ f. (k, lt, ground arith);
}
Move-Inv {s} k inv lt e (store {i} {value}) = record {
  flag = inv.flag;
  raised = λ j c. ground (arith, inv.raised j, inv.raised k);
  single = λ a b ca cb. ground (arith, inv.single a b, inv.single a k, inv.single k b);
  owned = λ f. (k, lt, ground arith);
}
Move-Inv {s} k inv lt e (release {i}) = record {
  flag = inl refl;
  raised = λ j c. ground (arith, inv.raised j, inv.raised k, inv.single j k);
  single = λ a b ca cb. ground (arith, inv.single a b, inv.single a k, inv.single k b);
  owned = λ f. absurd (ground arith);
}

-- Every reachable state satisfies the invariant.
pub Reach-Inv : {n max : ℕ} {s : System} → Reach n max s → Inv n s
Reach-Inv start = record {
  flag = inl refl;
  raised = λ k c. absurd (ground arith);
  single = λ j k c d. absurd (ground arith);
  owned = λ f. absurd (ground arith);
}
Reach-Inv (later {s} r (pick k lt mv)) = Move-Inv k (Reach-Inv r) lt refl mv

-- In every state that any number of threads running `incrementer` can reach, at most one thread
-- stands between the return of `Lock` and the write of `Unlock`.
pub mutual_exclusion :
    {n max : ℕ} {s : System}
    → Reach n max s
    → (j k : ℕ) → critical (s.threads j).pc ≡ true
    → critical (s.threads k).pc ≡ true
    → j ≡ k
mutual_exclusion r = (Reach-Inv r).single

-- In every reachable state and for each thread at the head of its `Lock`, some thread is in the
-- critical section, or the next round of `Lock` takes the mutex.
pub no_deadlock :
    {n max : ℕ} {s : System}
    → Reach n max s
    → (k : ℕ) → (s.threads k).pc ≡ Pc.spin
    → ((j : ℕ) × (j < n) × (critical (s.threads j).pc ≡ true))
      ⊎ ((lock_round s.shared.mutex).0 ≡ false)
unfolding lock_round
no_deadlock r k e = elim (Reach-Inv r).flag [
  | inl free ↦ inr (ground arith)
  | inr held ↦ inl ((Reach-Inv r).owned held)
]
