-- ===== src/Shell/Words.antt =====
-- debug_console.cpp: how `Exec` splits a line. The words stand between spaces; what stands behind
-- the last space is one more piece, which may be empty.
pub mod Scan
pub mod Exec
use seccamp_os.Base.{
  ℕ, zero, suc, ◌+◌, ◌-◌, ◌≤◌, ◌<◌, ◌≡◌, ◌≢◌, refl, sym, ap, ◌∙◌, arith, Bool, true, false,
  Bool-cases, inl, inr, List, [], ◌∷◌, ◌++◌, map, append-nil, append_assoc, ◌==◌, if◌then◌else◌,
  length, length-append, get_or, set,
}
use seccamp_os.Shell.{string_from, strings}
use seccamp_os.Shell.Line.{NonZero}

abbrev pub is_space : ℕ → Bool
is_space c = c == b' '

abbrev pub prepend : ℕ → List (List ℕ) → List (List ℕ)
prepend c [] = (c ∷ []) ∷ []
prepend c (w ∷ ws) = (c ∷ w) ∷ ws

-- The pieces of a text, from the middle of a word on or not.
abbrev pub pieces : Bool → List ℕ → List (List ℕ)
pieces inside [] = [] ∷ []
pieces inside (c ∷ cs) =
    if is_space c
    then (if inside then [] ∷ pieces false cs else pieces false cs)
    else prepend c (pieces true cs)

-- Where the pieces begin that do not begin before the text, which stands at index `i`.
abbrev pub offsets : Bool → ℕ → List ℕ → List ℕ
offsets inside i [] = if inside then [] else i ∷ []
offsets inside i (c ∷ cs) =
    if is_space c
    then offsets false (i + 1) cs
    else (if inside then offsets true (i + 1) cs else i ∷ offsets true (i + 1) cs)

-- The array `s` at the end: a NUL for each space, and one behind the text.
abbrev pub mask : ℕ → ℕ
mask c = if is_space c then 0 else c

abbrev pub masked : List ℕ → List ℕ
masked text = map mask text

string_from-append : (pre ys : List ℕ) → string_from (pre ++ ys) (length pre) ≡ string_from ys 0
unfolding string_from
string_from-append [] ys = refl
string_from-append (c ∷ pre) ys = string_from-append pre ys

-- The text behind `pre` at its first character.
string_from-cons :
    (pre ys : List ℕ) (c : ℕ)
    → c ≢ 0
    → string_from (pre ++ (c ∷ ys)) (length pre)
      ≡ c ∷ string_from (pre ++ (c ∷ ys)) (length pre + 1)
unfolding string_from
string_from-cons [] ys c ne = let e : (c == 0) ≡ false = ground arith in rw e refl
string_from-cons (p ∷ pre) ys c ne =
    let e : suc (length pre) + 1 ≡ suc (length pre + 1) = omega arith in
    rw e (string_from-cons pre ys c ne)

pub append-one : (pre ys : List ℕ) (c : ℕ) → (pre ++ (c ∷ [])) ++ ys ≡ pre ++ (c ∷ ys)
append-one [] ys c = refl
append-one (p ∷ pre) ys c = ap (λ t. p ∷ t) (append-one pre ys c)

pub length-one : (pre : List ℕ) (c : ℕ) → length (pre ++ (c ∷ [])) ≡ length pre + 1
length-one pre c = omega (arith, length-append pre (c ∷ []))

-- What a space and a letter add to the pieces behind them.
at_space :
    (inside : Bool) (w : List ℕ) (ws qs : List (List ℕ))
    → w ≡ []
    → ws ≡ qs
    → (if inside then [] ∷ ws else ws) ≡ (if inside then w ∷ [] else []) ++ qs
at_space true w ws qs ew e = rw (ew, e) refl
at_space false w ws qs ew e = e

at_letter :
    (inside : Bool) (s offs w v : List ℕ) (at c : ℕ) (ws : List (List ℕ))
    → string_from s at ≡ w
    → w ≡ c ∷ v
    → ws ≡ v ∷ strings s offs
    → prepend c ws
      ≡ (if inside then w ∷ [] else []) ++ strings s (if inside then offs else at ∷ offs)
unfolding strings
at_letter true s offs w v at c ws es ew e = rw (e, ew) refl
at_letter false s offs w v at c ws es ew e = rw (es, e, ew) refl

-- The strings that begin at the offsets are the pieces.
pub strings-offsets :
    (inside : Bool) (pre text : List ℕ)
    → NonZero text
    → pieces inside text
      ≡ (if inside then string_from (pre ++ (masked text ++ (0 ∷ []))) (length pre) ∷ [] else [])
        ++ strings (pre ++ (masked text ++ (0 ∷ []))) (offsets inside (length pre) text)
unfolding string_from strings
strings-offsets true pre [] nz = rw (string_from-append pre (0 ∷ [])) refl
strings-offsets false pre [] nz = rw (string_from-append pre (0 ∷ [])) refl
strings-offsets inside pre (c ∷ cs) (ne, nz) =
    let tail = masked cs ++ (0 ∷ []) in
    elim (Bool-cases (is_space c)) [
      | inl space ↦
          let rest = strings-offsets false (pre ++ (0 ∷ [])) cs nz in
          rw space (
            at_space inside (string_from (pre ++ (0 ∷ tail)) (length pre)) (pieces false cs)
              (strings (pre ++ (0 ∷ tail)) (offsets false (length pre + 1) cs))
              (string_from-append pre (0 ∷ tail))
              (rw (append-one pre tail 0, length-one pre 0) at rest))
      | inr letter ↦
          let rest = strings-offsets true (pre ++ (c ∷ [])) cs nz in
          rw letter (
            at_letter inside (pre ++ (c ∷ tail)) (offsets true (length pre + 1) cs)
              (string_from (pre ++ (c ∷ tail)) (length pre))
              (string_from (pre ++ (c ∷ tail)) (length pre + 1)) (length pre) c (pieces true cs)
              refl (string_from-cons pre tail c ne)
              (rw (append-one pre tail c, length-one pre c) at rest))
    ]
