-- ===== src/Shell/Words/Scan.antt =====
-- debug_console.cpp: the loops of `Exec`, at a buffer that holds `line` and anything behind it.
use seccamp_os.Base.{
  ℕ, zero, suc, ◌+◌, ◌-◌, ◌≤◌, ◌<◌, ◌≡◌, refl, sym, ap, ◌∙◌, arith, true, false, Bool-cases, inl,
  inr, List, [], ◌∷◌, ◌++◌, append-nil, append_assoc, leb, ltb, lt→ltb, if◌then◌else◌, length,
  length-append, get_or, set,
}
use seccamp_os.Shell.{skip_spaces, copy_word, split_line, Parsed, max_args}
use seccamp_os.Shell.Words.{is_space, offsets, mask, masked, append-one, length-one}

get_or-append : (pre ys : List ℕ) (c : ℕ) → get_or (pre ++ (c ∷ ys)) (length pre) 0 ≡ c
get_or-append [] ys c = refl
get_or-append (p ∷ pre) ys c = get_or-append pre ys c

-- Writing to the first cell behind what has been written.
set-masked :
    (done junk : List ℕ) (j v : ℕ)
    → set (masked done ++ (j ∷ junk)) (length done) v ≡ masked done ++ (v ∷ junk)
set-masked [] junk j v = refl
set-masked (d ∷ done) junk j v = ap (λ t. mask d ∷ t) (set-masked done junk j v)

masked-one :
    (done junk : List ℕ) (c : ℕ)
    → masked (done ++ (c ∷ [])) ++ junk ≡ masked done ++ (mask c ∷ junk)
masked-one [] junk c = refl
masked-one (d ∷ done) junk c = ap (λ t. mask d ∷ t) (masked-one done junk c)

-- Where a loop over `line` stops: what it has behind it, before it, and left of the array.
record Stop (line : List ℕ) (n : ℕ) (r : ℕ × List ℕ) (Q : ℕ → List ℕ → Type 0) : Type 0 where
  before : List ℕ
  after : List ℕ
  junk : List ℕ
  whole : before ++ after ≡ line
  result : r ≡ (length before, masked before ++ junk)
  room : length junk ≡ length after + 1
  onward : length after ≤ n
  fact : Q (length before) after

wider :
    {line : List ℕ} {n : ℕ} {r : ℕ × List ℕ} {Q : ℕ → List ℕ → Type 0}
    → Stop line n r Q
    → Stop line (suc n) r Q
wider {n} stop = record {
  before = stop.before;
  after = stop.after;
  junk = stop.junk;
  whole = stop.whole;
  result = stop.result;
  room = stop.room;
  onward = omega (arith, stop.onward);
  fact = stop.fact;
}

-- A text that ends here or goes on with a space.
abbrev AtSpace : List ℕ → Type 0
AtSpace [] = Unit
AtSpace (c ∷ cs) = is_space c ≡ true

module _ (line tail : List ℕ) where
  head-buf :
      (done cs : List ℕ) (c : ℕ)
      → done ++ (c ∷ cs) ≡ line
      → get_or (line ++ tail) (length done) 0 ≡ c
  head-buf done cs c e = rw (sym e) (
      ap (λ t. get_or t (length done) 0) (append_assoc done (c ∷ cs) tail)
      ∙ get_or-append done (cs ++ tail) c)

  skip_spaces_lem :
      (done text junk : List ℕ)
      → done ++ text ≡ line
      → length junk ≡ length text + 1
      → Stop line
          (length text)
          (skip_spaces (line ++ tail) (length text) (length done) (masked done ++ junk))
          (λ j after. offsets false (length done) text ≡ j ∷ offsets true j after)
  unfolding skip_spaces
  skip_spaces_lem done [] junk e room = record {
    before = done;
    after = [];
    junk = junk;
    whole = e;
    result = refl;
    room = room;
    onward = omega arith;
    fact = refl;
  }
  skip_spaces_lem done (c ∷ cs) [] e room = absurd (omega arith)
  skip_spaces_lem done (c ∷ cs) (j ∷ js) e room = elim (Bool-cases (is_space c)) [
    | inl space ↦
        let blank : mask c ≡ 0 = rw space refl in
        let rest =
          skip_spaces_lem (done ++ (c ∷ [])) cs js (append-one done cs c ∙ e) (omega arith) in
        rw (head-buf done cs c e, space, set-masked done js j 0)
          (wider (rw (length-one done c, masked-one done js c, blank) at rest))
    | inr letter ↦ record {
      before = done;
      after = c ∷ cs;
      junk = j ∷ js;
      whole = e;
      result = rw (head-buf done cs c e, letter) refl;
      room = room;
      onward = omega arith;
      fact = rw letter refl;
    }
  ]

  copy_word_lem :
      (done text junk : List ℕ)
      → done ++ text ≡ line
      → length junk ≡ length text + 1
      → Stop line
          (length text)
          (copy_word (line ++ tail) (length text) (length done) (masked done ++ junk))
          (λ j after. (offsets true (length done) text ≡ offsets true j after) × AtSpace after)
  unfolding copy_word
  copy_word_lem done [] junk e room = record {
    before = done;
    after = [];
    junk = junk;
    whole = e;
    result = refl;
    room = room;
    onward = omega arith;
    fact = (refl, tt);
  }
  copy_word_lem done (c ∷ cs) [] e room = absurd (omega arith)
  copy_word_lem done (c ∷ cs) (j ∷ js) e room = elim (Bool-cases (is_space c)) [
    | inl space ↦ record {
      before = done;
      after = c ∷ cs;
      junk = j ∷ js;
      whole = e;
      result = rw (head-buf done cs c e, space) refl;
      room = room;
      onward = omega arith;
      fact = (refl, space);
    }
    | inr letter ↦
        let kept : mask c ≡ c = rw letter refl in
        let rest =
          copy_word_lem (done ++ (c ∷ [])) cs js (append-one done cs c ∙ e) (omega arith) in
        rw (head-buf done cs c e, letter, set-masked done js j c)
          (wider (rw (length-one done c, masked-one done js c, kept) at rest))
  ]

  -- What the loop comes to with `argv` before and `offs` to come.
  unfoldable pub outcome : List ℕ → List ℕ → Parsed
  outcome argv offs =
      if leb (length argv + length offs) max_args
      then Parsed.parsed (masked line ++ (0 ∷ [])) (argv ++ offs)
      else Parsed.overflow

  outcome-next :
      (argv offs : List ℕ) (off : ℕ) → outcome (argv ++ (off ∷ [])) offs ≡ outcome argv (off ∷ offs)
  unfolding outcome
  outcome-next argv offs off =
      let same : length argv + 1 + length offs ≡ length argv + suc (length offs) = omega arith in
      rw (length-one argv off, append-one argv offs off, same) refl

  -- With `fuel` rounds the loop splits what is left of the line.
  unfoldable pub Splits : ℕ → Type 0
  Splits fuel =
      (done text junk argv : List ℕ)
      → done ++ text ≡ line
      → length junk ≡ length text + 1
      → length text + 2 ≤ fuel
      → length argv ≤ max_args
      → split_line fuel (line ++ tail) (length line) (length done) (masked done ++ junk) argv
        ≡ outcome argv (offsets false (length done) text)

  past_end :
      (fuel : ℕ) (s argv : List ℕ)
      → 0 < fuel
      → split_line fuel (line ++ tail) (length line) (length line + 1) s argv ≡ Parsed.parsed s argv
  unfolding split_line skip_spaces
  past_end zero s argv h = absurd (omega arith)
  past_end (suc fuel) s argv h =
      let none_left : length line - (length line + 1) ≡ 0 = omega arith in
      rw (none_left, lt→ltb (length line) (length line + 1) (omega arith)) refl

  behind_word :
      (fuel : ℕ) (before after junk argv : List ℕ)
      → Splits fuel
      → before ++ after ≡ line
      → AtSpace after
      → length junk ≡ length after + 1
      → length after + 1 ≤ fuel
      → length argv ≤ max_args
      → split_line fuel
          (line ++ tail)
          (length line)
          (length before + 1)
          (set (masked before ++ junk) (length before) 0)
          argv
        ≡ outcome argv (offsets true (length before) after)
  unfolding Splits outcome
  behind_word fuel before after [] argv ih e space room enough few = absurd (omega arith)
  behind_word fuel before [] (x ∷ y ∷ js) argv ih e space room enough few = absurd (omega arith)
  behind_word fuel before [] (x ∷ []) argv ih e space room enough few =
      let same : before ≡ line = sym (append-nil before) ∙ e in
      let fits : leb (length argv + 0) max_args ≡ true = ground arith in
      rw (set-masked before [] x 0, same, fits, append-nil argv)
        (past_end fuel (masked line ++ (0 ∷ [])) argv (omega arith))
  behind_word fuel before (c ∷ cs) (x ∷ js) argv ih e space room enough few =
      let blank : mask c ≡ 0 = rw space refl in
      let rest =
        ih (before ++ (c ∷ [])) cs js argv (append-one before cs c ∙ e) (omega arith) (omega arith)
          few in
      rw (set-masked before js x 0, space)
        (rw (length-one before c, masked-one before js c, blank) at rest)

  pub split_line-Splits : (fuel : ℕ) → Splits fuel
  unfolding Splits split_line outcome
  split_line-Splits zero done text junk argv e room enough few = absurd (omega arith)
  split_line-Splits (suc fuel) done text junk argv e room enough few =
      let k = skip_spaces_lem done text junk e room in
      let w = copy_word_lem k.before k.after k.junk k.whole k.room in
      let size : length done + length text ≡ length line =
        sym (length-append done text) ∙ ap length e in
      let size₁ : length k.before + length k.after ≡ length line =
        sym (length-append k.before k.after) ∙ ap length k.whole in
      let size₂ : length w.before + length w.after ≡ length line =
        sym (length-append w.before w.after) ∙ ap length w.whole in
      let left : length line - length done ≡ length text = omega arith in
      let left₁ : length line - length k.before ≡ length k.after = omega arith in
      let inside : ltb (length line) (length k.before) ≡ false = ground arith in
      let offs : offsets false (length done) text
          ≡ length k.before ∷ offsets true (length w.before) w.after =
        k.fact ∙ ap (λ t. length k.before ∷ t) w.fact.0 in
      let next =
        behind_word fuel w.before w.after w.junk (argv ++ (length k.before ∷ []))
          (split_line-Splits fuel) w.whole w.fact.1 w.room (omega (arith, k.onward, w.onward)) in
      elim (Bool-cases (leb max_args (length argv))) [
        | inl is_full ↦
            let over : leb (length argv + suc (length (offsets true (length w.before) w.after)))
                  max_args
                ≡ false =
              ground arith in
            rw (left, k.result, left₁, w.result, inside, is_full, offs, over) refl
        | inr space ↦
            rw (left, k.result, left₁, w.result, inside, space, offs)
              (next (rw (length-one argv (length k.before)) (ground arith))
                ∙ outcome-next argv (offsets true (length w.before) w.after) (length k.before))
      ]
