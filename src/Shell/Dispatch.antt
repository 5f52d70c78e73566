-- ===== src/Shell/Dispatch.antt =====
-- debug_console.cpp: from a line that has been typed to the command that gets its words.
use seccamp_os.Base.{
  ℕ, suc, ◌≤◌, ◌<◌, ◌≡◌, refl, ap, ◌∙◌, arith, true, false, some, List, [], ◌∷◌, ◌++◌, length,
  get_elem?, set, get_elem?-set_self, get_elem?-set_ne, length-set, le→ltb, leb,
}
use seccamp_os.Shell.{
  Host, Command, DebugShell, line_length, max_args, exec, enter, dispatch, shell_put_char,
}
use seccamp_os.Shell.Line.{HoldsLine, NonZero}
use seccamp_os.Shell.Words.{pieces}
use seccamp_os.Shell.Words.Exec.{exec_lem}

-- An array that holds a line with a NUL behind it.
line_in_buffer :
    (buf line : List ℕ)
    → ((i : ℕ) → i < length line → get_elem? buf i ≡ get_elem? line i)
    → get_elem? buf (length line) ≡ some 0
    → (tail : List ℕ) × (buf ≡ line ++ (0 ∷ tail))
line_in_buffer [] [] text end = absurd (ground arith)
line_in_buffer [] (c ∷ cs) text end = absurd (ground arith)
line_in_buffer (b ∷ buf) [] text end =
    let same : b ≡ 0 = ground arith in (buf, ap (λ t. t ∷ buf) same)
line_in_buffer (b ∷ buf) (c ∷ cs) text end =
    let same : b ≡ c = ground (arith, text 0) in
    let (tail, e) = line_in_buffer buf cs (λ i lt. text (suc i) (omega arith)) end in
    (tail, rw same (ap (λ t. c ∷ t) e))

module _ (host : Host) (table : List (Command (host.World))) (stack : ℕ → List ℕ) where
  open host use {World, put_char, put_str}

  -- If the buffer holds a line of 1 to 511 characters, none of them NUL, with at most 128 pieces,
  -- a line feed hands all pieces of the line to the command that the first one names, or to the
  -- message that there is none; behind it the prompt is printed and the line is empty.
  pub enter_dispatches :
      (line : List ℕ) (sh : DebugShell) (w : World)
      → ((n : ℕ) → length (stack n) ≡ n)
      → HoldsLine sh line
      → length line < line_length
      → 0 < length line
      → NonZero line
      → length (pieces false line) ≤ max_args
      → (sh' : DebugShell) × (shell_put_char host table stack 0x0a (sh, w)
          ≡ some (
            sh',
            put_str sh.prompt_str (dispatch host table (pieces false line) (put_char 0x0a w)),
          ))
        × (sh'.prompt_str ≡ sh.prompt_str)
        × HoldsLine sh' []
  unfolding shell_put_char enter
  enter_dispatches line sh w sized h room some_chars nz few =
      let (tail, e) =
        line_in_buffer (set sh.buf (length line) 0) line
          (λ i lt.
            get_elem?-set_ne sh.buf (length line) i 0 (λ same. absurd (omega arith)) ∙ h.text i lt)
          (get_elem?-set_self sh.buf (length line) 0 (omega (arith, h.storage))) in
      let fits : leb (length (pieces false line)) max_args ≡ true = ground arith in
      let w' = put_char 0x0a w in
      let ran : exec host table stack (set sh.buf sh.cur 0) w'
          ≡ some (dispatch host table (pieces false line) w') =
        ap (λ t. exec host table stack (set sh.buf t 0) w') h.cursor
        ∙ ap (λ t. exec host table stack t w') e
        ∙ exec_lem host table stack line tail w' sized nz some_chars
        ∙ rw fits refl in
      (
        record sh { buf = set sh.buf sh.cur 0; cur = 0 },
        rw (le→ltb 511 sh.cur (omega (arith, h.cursor)), enter, ran) refl,
        refl,
        record {
          storage = length-set sh.buf sh.cur 0 ∙ h.storage;
          cursor = refl;
          fits = omega arith;
          text = λ i lt. absurd (omega arith);
        },
      )
