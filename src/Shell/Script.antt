-- ===== src/Shell/Script.antt =====
-- debug_console.cpp: lines that are typed one after another, as MyMain does it with its `auto_cmd`.
use seccamp_os.Base.{
  ℕ, ◌+◌, ◌≤◌, ◌<◌, ◌≡◌, ◌≢◌, refl, sym, ap, subst, ◌∙◌, arith, false, none, some, List, [], ◌∷◌,
  ◌++◌, length, length-append, append_assoc, append-nil, set, ◌==◌, ==_ne,
}
use seccamp_os.Shell.{
  Host, Command, DebugShell, line_length, max_args, dispatch, shell_put_char, type_text,
}
use seccamp_os.Shell.Full.{Printable, type_text-cons, put_printable}
use seccamp_os.Shell.Line.{HoldsLine, NonZero, edit, put_char-HoldsLine}
use seccamp_os.Shell.Words.{pieces}
use seccamp_os.Shell.Dispatch.{enter_dispatches}

-- A line that can be typed and has a command in it.
pub record IsCommandLine (line : List ℕ) : Type 0 where
  pub printable : Printable line
  pub some_chars : 0 < length line
  pub fits : length line < line_length
  pub nonzero : NonZero line
  pub few : length (pieces false line) ≤ max_args

abbrev pub AllCommandLines : List (List ℕ) → Type 0
AllCommandLines [] = Unit
AllCommandLines (line ∷ lines) = IsCommandLine line × AllCommandLines lines

-- The text of the lines, each ended by a line feed.
abbrev pub script : List (List ℕ) → List ℕ
script [] = []
script (line ∷ lines) = line ++ (0x0a ∷ script lines)

edit-printable :
    (ch : ℕ) (line : List ℕ)
    → ch ≢ 0x08
    → length line < line_length
    → edit ch line ≡ line ++ (ch ∷ [])
unfolding edit
edit-printable ch line other room =
    let below : (length line == line_length) ≡ false = ground arith in
    rw (below, ==_ne ch 0x08 other) refl

some-injective : {A : Type 0} (a b : A) → some a ≡ some b → a ≡ b
some-injective a b e = ap (λ o. elim o [ none ↦ a | some c ↦ c ]) e

module _ (host : Host) (table : List (Command (host.World))) (stack : ℕ → List ℕ)
    (sized : (n : ℕ) → length (stack n) ≡ n) where
  open host use {World, put_char, put_str}

  -- The characters put on the console one after another.
  abbrev pub put_all : List ℕ → World → World
  put_all [] w = w
  put_all (ch ∷ chs) w = put_all chs (put_char ch w)

  -- What is left of the world by a line that is typed and entered, and by lines one after another.
  abbrev pub run_line : List ℕ → List ℕ → World → World
  run_line prompt line w =
      put_str prompt (dispatch host table (pieces false line) (put_char 0x0a (put_all line w)))

  abbrev pub run_lines : List ℕ → List (List ℕ) → World → World
  run_lines prompt [] w = w
  run_lines prompt (line ∷ lines) w = run_lines prompt lines (run_line prompt line w)

  abbrev after_one : ℕ → DebugShell → DebugShell
  after_one ch sh = record sh { buf = set sh.buf sh.cur ch; cur = sh.cur + 1 }

  put_printable-HoldsLine :
      (ch : ℕ) (line : List ℕ) (sh : DebugShell) (w : World)
      → ch ≢ 0x0a
      → ch ≢ 0x08
      → HoldsLine sh line
      → length line < line_length
      → (shell_put_char host table stack ch (sh, w) ≡ some (after_one ch sh, put_char ch w))
        × HoldsLine (after_one ch sh) (line ++ (ch ∷ []))
  put_printable-HoldsLine ch line sh w feed back h room =
      let put = put_printable host table stack ch sh w feed back (omega (arith, h.cursor)) in
      let (s, e, holds) = put_char-HoldsLine host table stack ch sh w line feed h in
      let same = some-injective s (after_one ch sh, put_char ch w) (sym e ∙ put) in
      (
        put,
        subst (λ l. HoldsLine (after_one ch sh) l) (edit-printable ch line back room)
            (subst (λ t. HoldsLine t (edit ch line)) (ap (λ t. t.0) same) holds),
      )

  -- A line is typed behind what the buffer holds, up to the text `rest`.
  types_line :
      (rest chs line : List ℕ) (sh : DebugShell) (w : World)
      → Printable chs
      → HoldsLine sh line
      → length line + length chs ≤ line_length
      → (sh' : DebugShell) × (type_text host table stack (chs ++ rest) (sh, w)
          ≡ type_text host table stack rest (sh', put_all chs w))
        × HoldsLine sh' (line ++ chs)
        × (sh'.prompt_str ≡ sh.prompt_str)
  types_line rest [] line sh w p h fits = (sh, refl, rw append-nil h, refl)
  types_line rest (ch ∷ chs) line sh w (feed, back, p) h fits =
      let (put, holds) = put_printable-HoldsLine ch line sh w feed back h (omega arith) in
      let (sh', typed, all, prompt) =
        types_line rest chs (line ++ (ch ∷ [])) (after_one ch sh) (put_char ch w) p holds
          (omega (arith, length-append line (ch ∷ []))) in
      (
        sh',
        type_text-cons host table stack ch (chs ++ rest) (sh, w) put ∙ typed,
        subst (λ l. HoldsLine sh' l) (append_assoc line (ch ∷ []) chs) all,
        prompt,
      )

  -- Command lines that are typed one after another on an empty line leave an empty line, and each
  -- of them has been shown, has had its words dispatched and been followed by the prompt, in
  -- order.
  pub script_lem :
      (lines : List (List ℕ)) (sh : DebugShell) (w : World)
      → AllCommandLines lines
      → HoldsLine sh []
      → (sh' : DebugShell) × (type_text host table stack (script lines) (sh, w)
          ≡ some (sh', run_lines sh.prompt_str lines w))
        × HoldsLine sh' []
  unfolding type_text
  script_lem [] sh w all h = (sh, refl, h)
  script_lem (line ∷ lines) sh w (one, all) h =
      let (sh₁, typed, holds, prompt₁) =
        types_line (0x0a ∷ script lines) line [] sh w one.printable h (omega (arith, one.fits)) in
      let w₁ = put_all line w in
      let (sh₂, entered, prompt₂, empty) =
        enter_dispatches host table stack line sh₁ w₁ sized holds one.fits one.some_chars
          one.nonzero one.few in
      let ran : World = dispatch host table (pieces false line) (put_char 0x0a w₁) in
      let (sh₃, rest, final) = script_lem lines sh₂ (put_str sh₁.prompt_str ran) all empty in
      (
        sh₃,
        typed
            ∙ type_text-cons host table stack 0x0a (script lines) (sh₁, w₁) entered
            ∙ rest
            ∙ ap (λ p. some (sh₃, run_lines p lines (put_str sh₁.prompt_str ran)))
                (prompt₂ ∙ prompt₁)
            ∙ ap (λ p. some (sh₃, run_lines sh.prompt_str lines (put_str p ran))) prompt₁,
        final,
      )
