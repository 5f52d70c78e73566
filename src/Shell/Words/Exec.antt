-- ===== src/Shell/Words/Exec.antt =====
-- debug_console.cpp: `Exec` as a whole.
use seccamp_os.Base.{
  ℕ, suc, ◌+◌, ◌<◌, ◌≡◌, refl, sym, ap, arith, false, none, some, List, [], ◌∷◌, ◌++◌, Bool-cases,
  inl, inr, leb, ◌==◌, if◌then◌else◌, length,
}
use seccamp_os.Shell.{Host, Command, max_args, string_from, strings, dispatch, exec}
use seccamp_os.Shell.Line.{NonZero}
use seccamp_os.Shell.Words.{pieces, offsets, masked, strings-offsets}
use seccamp_os.Shell.Words.Scan.{Splits, outcome, split_line-Splits}

string_from-line : (line tail : List ℕ) → NonZero line → string_from (line ++ (0 ∷ tail)) 0 ≡ line
unfolding string_from
string_from-line [] tail nz = refl
string_from-line (c ∷ line) tail (ne, nz) =
    let e : (c == 0) ≡ false = ground arith in
    rw e (ap (λ t. c ∷ t) (string_from-line line tail nz))

length-strings : (s argv : List ℕ) → length (strings s argv) ≡ length argv
unfolding strings
length-strings s [] = refl
length-strings s (off ∷ argv) = ap suc (length-strings s argv)

module _ (host : Host) (table : List (Command (host.World))) (stack : ℕ → List ℕ) where
  -- For a line that is neither empty nor has a NUL in it: `Exec` splits it in `len + 2` rounds
  -- into its pieces, that is its words, and an empty piece if it ends in a space or holds only
  -- spaces. With at most 128 pieces the command of the first piece's name, or the message that
  -- there is none, gets them all; with more, `Exec` writes outside `argv`. What lies behind the
  -- line in the buffer, and in the array `s` before, makes no difference.
  pub exec_lem :
      (line tail : List ℕ) (w : host.World)
      → ((n : ℕ) → length (stack n) ≡ n)
      → NonZero line
      → 0 < length line
      → exec host table stack (line ++ (0 ∷ tail)) w ≡ (
          if leb (length (pieces false line)) max_args
          then some (dispatch host table (pieces false line) w)
          else none)
  unfolding exec Splits outcome
  exec_lem line tail w sized nz ne =
      let whole = strings-offsets false [] line nz in
      let count : length (pieces false line) ≡ 0 + length (offsets false 0 line) =
        omega (
          arith,
          length-strings (masked line ++ (0 ∷ [])) (offsets false 0 line),
          ap length whole,
        ) in
      let some_chars : (length line == 0) ≡ false = ground arith in
      let split =
        split_line-Splits line (0 ∷ tail) (length line + 2) [] line (stack (length line + 1)) []
          refl (sized (length line + 1)) (omega arith) (omega arith) in
      elim (Bool-cases (leb (0 + length (offsets false 0 line)) max_args)) [
        | inl few ↦
            rw (string_from-line line tail nz, some_chars, split, count, few, sym whole) refl
        | inr many ↦ rw (string_from-line line tail nz, some_chars, split, count, many) refl
      ]
