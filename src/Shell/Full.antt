-- ===== src/Shell/Full.antt =====
-- A line that fills the buffer of the shell.
use seccamp_os.Base.{
  ℕ, ◌+◌, ◌-◌, ◌≤◌, ◌<◌, ◌≡◌, ◌≢◌, refl, arith, ◌∙◌, none, some, List, [], ◌∷◌, ◌++◌, length,
  lt→ltb, le→ltb, ==_ne, Option-cases, inl, inr, set,
}
use seccamp_os.Shell.{Host, Command, DebugShell, line_length, shell_put_char, type_text}

abbrev pub Printable : List ℕ → Type 0
Printable [] = Unit
Printable (ch ∷ chs) = (ch ≢ 0x0a) × (ch ≢ 0x08) × Printable chs

module _ (host : Host) (table : List (Command (host.World))) (stack : ℕ → List ℕ) where
  open host use {World}

  pub type_text-cons :
      (ch : ℕ) (chs : List ℕ) (s : DebugShell × World) {s' : DebugShell × World}
      → shell_put_char host table stack ch s ≡ some s'
      → type_text host table stack (ch ∷ chs) s ≡ type_text host table stack chs s'
  unfolding type_text
  type_text-cons ch chs s e = rw (e, type_text)

  put_full :
      (ch : ℕ) (sh : DebugShell) (w : World)
      → line_length ≤ sh.cur
      → shell_put_char host table stack ch (sh, w) ≡ some (sh, w)
  unfolding shell_put_char
  put_full ch sh w h = rw (lt→ltb (line_length - 1) sh.cur (omega arith))

  -- A full shell takes nothing more.
  ignores :
      (chs : List ℕ) (sh : DebugShell) (w : World)
      → line_length ≤ sh.cur
      → type_text host table stack chs (sh, w) ≡ some (sh, w)
  unfolding type_text
  ignores [] sh w h = refl
  ignores (ch ∷ chs) sh w h =
      type_text-cons ch chs (sh, w) (put_full ch sh w h) ∙ ignores chs sh w h

  type_text-append :
      (before after : List ℕ) (s : DebugShell × World)
      → type_text host table stack (before ++ after) s
        ≡ (elim (type_text host table stack before s) [
          | none ↦ none
          | some s' ↦ type_text host table stack after s'
        ])
  unfolding type_text
  type_text-append [] after s = refl
  type_text-append (ch ∷ before) after s =
      elim (Option-cases (shell_put_char host table stack ch s)) [
        | inl fault ↦ rw (fault, type_text)
        | inr (s', next) ↦
            type_text-cons ch (before ++ after) s next
            ∙ type_text-append before after s'
            ∙ rw (type_text-cons ch before s next)
      ]

  -- A printable character in a line that is not full.
  pub put_printable :
      (ch : ℕ) (sh : DebugShell) (w : World)
      → ch ≢ 0x0a
      → ch ≢ 0x08
      → sh.cur < line_length
      → shell_put_char host table stack ch (sh, w)
        ≡ some (record sh { buf = set sh.buf sh.cur ch; cur = sh.cur + 1 }, host.put_char ch w)
  unfolding shell_put_char
  put_printable ch sh w n b h =
      rw (le→ltb (line_length - 1) sh.cur (omega arith), ==_ne ch 0x0a n, ==_ne ch 0x08 b)

  fills :
      (chs : List ℕ) (sh : DebugShell) (w : World)
      → Printable chs
      → sh.cur + length chs ≤ line_length
      → (sh' : DebugShell) × (w' : World) × (type_text host table stack chs (sh, w)
          ≡ some (sh', w'))
        × (sh'.cur ≡ sh.cur + length chs)
  unfolding type_text
  fills [] sh w p h = (sh, w, refl, omega arith)
  fills (ch ∷ chs) sh w (n, b, p) h =
      let (sh', w', typed, cur) =
        fills chs (record sh { buf = set sh.buf sh.cur ch; cur = sh.cur + 1 }) (host.put_char ch w)
          p (omega arith) in
      (
        sh',
        w',
        type_text-cons ch chs (sh, w) (put_printable ch sh w n b (omega arith)) ∙ typed,
        omega arith,
      )

  -- Once the characters of a line, none of them a line feed or a backspace, have filled its 512
  -- places, no further input changes the shell or anything around it, line feeds and backspaces
  -- included.
  pub full_line_forever :
      (line more : List ℕ) (sh : DebugShell) (w : World)
      → Printable line
      → sh.cur + length line ≡ line_length
      → type_text host table stack (line ++ more) (sh, w) ≡ type_text host table stack line (sh, w)
  full_line_forever line more sh w p full =
      let (sh', w', typed, cur) = fills line sh w p (omega arith) in
      type_text-append line more (sh, w) ∙ rw typed (ignores more sh' w' (omega arith))
