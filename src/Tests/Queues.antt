-- ===== src/Tests/Queues.antt =====
-- queue.hpp at concrete queues.
use seccamp_os.Base.{ℕ, ◌≡◌, ◌⊎◌, ◌↔◌, inr, refl, arith, List, [], ◌∷◌, none, some}
use seccamp_os.ErrorCode.{success, full, empty}
use seccamp_os.Queue.{ArrayQueue, construct, push, pop}
use seccamp_os.Queue.Valid.{IsValid, push-IsValid, pop-IsValid, construct-IsValid_iff}
use seccamp_os.Queue.Fifo
use seccamp_os.Queue.Fifo.{Op, put, get, Reply}
use seccamp_os.Queue.Refine.{Represents, run, run_refines}

-- 7, then 8, round the end of the array
abbrev wrapped : ArrayQueue ℕ
wrapped = record { slots = 8 ∷ 5 ∷ 7 ∷ []; read_pos = 2; write_pos = 1; count = 2 }

abbrev unset : ArrayQueue ℕ
unset = record { slots = 8 ∷ 5 ∷ 7 ∷ []; read_pos = 9; write_pos = 9; count = 2 }

wrapped-IsValid : IsValid 3 wrapped
wrapped-IsValid = record {
  storage = refl;
  small = omega arith;
  read_in = omega arith;
  write_in = omega arith;
  count_in = omega arith;
  apart = inr refl;
}

wrapped-Represents : Represents 3 wrapped (7 ∷ 8 ∷ [])
wrapped-Represents = record { valid = wrapped-IsValid; size = refl; holds = (refl, (refl, tt)) }

push-IsValid_example : IsValid 3 (push 3 6 wrapped).1
push-IsValid_example = push-IsValid 6 wrapped-IsValid

pop-IsValid_example : IsValid 3 (pop 3 wrapped).1
pop-IsValid_example = pop-IsValid wrapped-IsValid

construct-IsValid_iff_example :
    IsValid 3 (construct unset) ↔ ((unset.count ≡ 0) ⊎ (unset.count ≡ 3))
construct-IsValid_iff_example = construct-IsValid_iff unset refl (omega arith) (omega arith)

abbrev script : List (Op ℕ)
script = put 6 ∷ put 9 ∷ get ∷ get ∷ get ∷ get ∷ []

run_refines_example :
    run 3 script wrapped
    ≡ record { code = success; size = 3; head = some 7 }
      ∷ record { code = full; size = 3; head = some 7 }
      ∷ record { code = success; size = 2; head = some 8 }
      ∷ record { code = success; size = 1; head = some 6 }
      ∷ record { code = success; size = 0; head = none }
      ∷ record { code = empty; size = 0; head = none }
      ∷ []
unfolding Fifo.run Fifo.push Fifo.pop Fifo.front
run_refines_example = run_refines 3 script wrapped-Represents
