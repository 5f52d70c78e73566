-- ===== src/Queue/Refine.antt =====
-- A valid `ArrayQueue` behaves as the FIFO of the elements that it holds.
use seccamp_os.Base.{
  ℕ, zero, suc, ◌+◌, ◌^◌, ◌<◌, ◌≡◌, ◌⊎◌, inl, inr, refl, arith, ap, ◌∙◌, List, [], ◌∷◌, ◌++◌, none,
  some, ◌==◌, if◌then◌else◌, Bool-cases, length, length-append, get_elem?, set, get_elem?-set_self,
  get_elem?-set_ne, get_elem?-is_some,
}
use seccamp_os.ErrorCode.{Error}
use seccamp_os.Queue.{ArrayQueue, advance, push, pop, count, front}
use seccamp_os.Queue.Valid.{IsValid, push-IsValid, pop-IsValid}
use seccamp_os.Queue.Fifo
use seccamp_os.Queue.Fifo.{Op, Reply}

module _ {ℓ} {A : Type ℓ} (n : ℕ) where
  -- The array holds `xs` from index `at` on, going round at `n`.
  abbrev pub Holds : List A → ℕ → List A → Type ℓ
  Holds slots at [] = Unit
  Holds slots at (x ∷ xs) = (get_elem? slots at ≡ some x) × Holds slots (advance n at) xs

  pub record Represents (q : ArrayQueue A) (xs : List A) : Type ℓ where
    pub valid : IsValid n q
    pub size : length xs ≡ q.count
    pub holds : Holds q.slots q.read_pos xs

  -- Writing just behind what the array holds adds one element.
  Holds-set :
      (slots : List A) (xs : List A) (at w : ℕ) (x : A)
      → length slots ≡ n
      → n < 2 ^ 64
      → at < n
      → w < n
      → length xs < n
      → (at + length xs ≡ w) ⊎ (at + length xs ≡ w + n)
      → Holds slots at xs
      → Holds (set slots w x) at (xs ++ (x ∷ []))
  Holds-set slots [] at w x len small in_range w_in few place h =
      let e : at ≡ w = ground arith in rw e (get_elem?-set_self slots w x (omega arith), tt)
  Holds-set slots (y ∷ ys) at w x len small in_range w_in few place h = (
    get_elem?-set_ne slots w at x (ground arith) ∙ h.0,
    Holds-set slots ys (advance n at) w x len small (ground arith) w_in (omega arith) (ground arith)
        h.1,
  )

  -- The list of elements of a valid queue.
  Holds-some :
      (slots : List A) (k at : ℕ)
      → length slots ≡ n
      → n < 2 ^ 64
      → at < n
      → (xs : List A) × (length xs ≡ k) × Holds slots at xs
  Holds-some slots zero at len small in_range = ([], refl, tt)
  Holds-some slots (suc k) at len small in_range =
      let (x, found) = get_elem?-is_some slots at (omega arith) in
      let (xs, size, rest) = Holds-some slots k (advance n at) len small (ground arith) in
      (x ∷ xs, ap suc size, (found, rest))

  pub IsValid-Represents : (q : ArrayQueue A) → IsValid n q → (xs : List A) × Represents q xs
  IsValid-Represents q v =
      let (xs, size, h) = Holds-some q.slots q.count q.read_pos v.storage v.small v.read_in in
      (xs, record { valid = v; size = size; holds = h })

  -- On a queue that represents a list of elements, `Push` returns the code that the FIFO's push
  -- returns for the list (`kFull` at `n` elements), and what it leaves represents the FIFO's
  -- result.
  pub push_refines :
      (x : A) {q : ArrayQueue A} {xs : List A}
      → Represents q xs
      → ((push n x q).0 ≡ (Fifo.push n x xs).0) × Represents (push n x q).1 (Fifo.push n x xs).1
  unfolding push Fifo.push
  push_refines x {q} {xs} r = elim (Bool-cases (q.count == n)) [
    | inl is_full ↦ rw (r.size, is_full) (refl, r)
    | inr room ↦
        rw (r.size, room)
          (
            refl,
            record {
              valid = rw (room, push) at (push-IsValid x r.valid);
              size =
                  ground
                    (arith, length-append xs (x ∷ []), r.size, r.valid.count_in, r.valid.small);
              holds =
                  Holds-set q.slots xs q.read_pos q.write_pos x r.valid.storage r.valid.small
                    r.valid.read_in r.valid.write_in (ground arith) (ground arith) r.holds;
            },
          )
  ]

  -- On a queue that represents a list of elements, `Pop` returns the code that the FIFO's pop
  -- returns for the list (`kEmpty` without elements), and what it leaves represents the FIFO's
  -- result.
  pub pop_refines :
      {q : ArrayQueue A} {xs : List A}
      → Represents q xs
      → ((pop n q).0 ≡ (Fifo.pop xs).0) × Represents (pop n q).1 (Fifo.pop xs).1
  unfolding pop Fifo.pop
  pop_refines {q} {xs = []} r = ground (arith, r.size, r)
  pop_refines {q} {xs = x ∷ xs} r = elim (Bool-cases (q.count == 0)) [
    | inl is_empty ↦ absurd (ground (arith, r.size))
    | inr some_left ↦ rw some_left (
      refl,
      record {
        valid = rw (some_left, pop) at (pop-IsValid r.valid);
        size = omega (arith, r.size);
        holds = r.holds.1;
      },
    )
  ]

  -- What a client sees of a queue after a call.
  abbrev pub reply : Error → ArrayQueue A → Reply A
  reply e q = record { code = e; size = count q; head = if count q == 0 then none else front q }

  unfoldable pub run : List (Op A) → ArrayQueue A → List (Reply A)
  run [] q = []
  run (Op.put x ∷ ops) q = let (e, q') = push n x q in reply e q' ∷ run ops q'
  run (Op.get ∷ ops) q = let (e, q') = pop n q in reply e q' ∷ run ops q'

  reply_refines :
      {q : ArrayQueue A} (xs : List A) (e : Error) → Represents q xs → reply e q ≡ Fifo.reply e xs
  unfolding count front Fifo.front
  reply_refines [] e r = ground (arith, r.size)
  reply_refines (x ∷ xs) e r = ground (arith, r.size, r.holds)

  -- On a queue that represents a list of elements, any sequence of `Push` and `Pop` gives the
  -- codes, the counts and the fronts that the FIFO gives from that list.
  pub run_refines :
      (ops : List (Op A)) {q : ArrayQueue A} {xs : List A}
      → Represents q xs
      → run ops q ≡ Fifo.run n ops xs
  unfolding run Fifo.run
  run_refines [] r = refl
  run_refines (Op.put x ∷ ops) {q} {xs} r =
      let (code, next) = push_refines x r in rw (run_refines ops next, reply_refines _ _ next, code)
  run_refines (Op.get ∷ ops) {q} {xs} r =
      let (code, next) = pop_refines r in rw (run_refines ops next, reply_refines _ _ next, code)
