-- ===== src/Shell/Line.antt =====
-- Editing a line: the buffer of the shell holds the characters of a list.
use seccamp_os.Base.{
  ℕ, zero, suc, ◌+◌, ◌-◌, ◌≤◌, ◌<◌, ◌≡◌, ◌≢◌, refl, arith, ◌∙◌, sym, none, some, List, [], ◌∷◌,
  ◌++◌, ◌==◌, if◌then◌else◌, length, length-append, length-set, get_elem?, set, get_elem?-set_self,
  get_elem?-set_ne, le→ltb, lt→ltb, ==_ne, Bool-cases, inl, inr,
}
use native.Mathlib.Decide.{dec_lt, ℕ_discrete}
use seccamp_os.Shell.{
  Host, Command, DebugShell, line_length, string_from, exec, enter, shell_put_char, type_text,
}
use seccamp_os.Shell.Full.{type_text-cons}

pub record HoldsLine (sh : DebugShell) (line : List ℕ) : Type 0 where
  pub storage : length sh.buf ≡ line_length
  pub cursor : sh.cur ≡ length line
  pub fits : length line ≤ line_length
  pub text : (i : ℕ) → i < length line → get_elem? sh.buf i ≡ get_elem? line i

abbrev pub NonZero : List ℕ → Type 0
NonZero [] = Unit
NonZero (c ∷ cs) = (c ≢ 0) × NonZero cs

abbrev pub drop_last : List ℕ → List ℕ
drop_last [] = []
drop_last (c ∷ []) = []
drop_last (c ∷ d ∷ cs) = c ∷ drop_last (d ∷ cs)

-- What a character other than a line feed does to a line.
unfoldable pub edit : ℕ → List ℕ → List ℕ
edit ch line =
    if length line == line_length
    then line
    else (if ch == 0x08 then drop_last line else line ++ (ch ∷ []))

get_elem?-append_left :
    (line : List ℕ) (ch i : ℕ)
    → i < length line
    → get_elem? (line ++ (ch ∷ [])) i ≡ get_elem? line i
get_elem?-append_left [] ch i h = absurd (omega arith)
get_elem?-append_left (c ∷ cs) ch zero h = refl
get_elem?-append_left (c ∷ cs) ch (suc i) h = get_elem?-append_left cs ch i (omega arith)

get_elem?-append_last :
    (line : List ℕ) (ch : ℕ) → get_elem? (line ++ (ch ∷ [])) (length line) ≡ some ch
get_elem?-append_last [] ch = refl
get_elem?-append_last (c ∷ cs) ch = get_elem?-append_last cs ch

length-drop_last : (line : List ℕ) → length (drop_last line) ≡ length line - 1
length-drop_last [] = omega arith
length-drop_last (c ∷ []) = omega arith
length-drop_last (c ∷ d ∷ cs) = omega (arith, length-drop_last (d ∷ cs))

get_elem?-drop_last :
    (line : List ℕ) (i : ℕ) → i < length line - 1 → get_elem? (drop_last line) i ≡ get_elem? line i
get_elem?-drop_last [] i h = absurd (omega arith)
get_elem?-drop_last (c ∷ []) i h = absurd (omega arith)
get_elem?-drop_last (c ∷ d ∷ cs) zero h = refl
get_elem?-drop_last (c ∷ d ∷ cs) (suc i) h = get_elem?-drop_last (d ∷ cs) i (omega arith)

append_text :
    (buf line : List ℕ) (ch : ℕ)
    → length line < length buf
    → ((i : ℕ) → i < length line → get_elem? buf i ≡ get_elem? line i)
    → (i : ℕ) → i < length line + 1
    → get_elem? (set buf (length line) ch) i ≡ get_elem? (line ++ (ch ∷ [])) i
append_text buf line ch room text i h = elim (dec_lt i (length line)) [
  | yes before ↦
      get_elem?-set_ne buf (length line) i ch (λ e. absurd (omega arith))
      ∙ text i before
      ∙ sym (get_elem?-append_left line ch i before)
  | no last ↦
      let e : i ≡ length line = omega arith in
      rw (e, get_elem?-set_self buf (length line) ch room, get_elem?-append_last line ch)
]

at_start :
    {sh : DebugShell} (line : List ℕ)
    → HoldsLine sh line
    → sh.cur ≡ 0
    → HoldsLine sh (drop_last line)
at_start [] h e = h
at_start (c ∷ cs) h e = absurd (omega (arith, h.cursor))

module _ (host : Host) (table : List (Command (host.World))) (stack : ℕ → List ℕ) where
  open host use {World, put_char, put_str}

  -- A character other than a line feed edits the line as `edit` says.
  pub put_char-HoldsLine :
      (ch : ℕ) (sh : DebugShell) (w : World) (line : List ℕ)
      → ch ≢ 0x0a
      → HoldsLine sh line
      → (s : DebugShell × World) × (shell_put_char host table stack ch (sh, w) ≡ some s)
        × HoldsLine s.0 (edit ch line)
  unfolding shell_put_char edit
  put_char-HoldsLine ch sh w line n h = elim (Bool-cases (length line == line_length)) [
    | inl is_full ↦ ((sh, w), rw (lt→ltb 511 sh.cur (ground arith)), rw is_full h)
    | inr room ↦
        let below = le→ltb 511 sh.cur (ground (arith, h.cursor, h.fits)) in
        elim (ℕ_discrete ch 0x08) [
          | yes back ↦ elim (ℕ_discrete sh.cur 0) [
            | yes start ↦
                ((sh, w), rw (below, back, start), rw (room, back) (at_start line h start))
            | no behind ↦ (
              (record sh { cur = sh.cur - 1 }, put_char ch w),
              rw (below, back, ==_ne sh.cur 0 behind),
              rw (room, back)
                  (record {
                    storage = h.storage;
                    cursor = omega (arith, length-drop_last line, h.cursor);
                    fits = omega (arith, length-drop_last line, h.fits);
                    text = λ i lt.
                        let before : i < length line - 1 = omega (arith, length-drop_last line) in
                        h.text i (omega arith) ∙ sym (get_elem?-drop_last line i before);
                  }),
            )
          ]
          | no other ↦ (
            (record sh { buf = set sh.buf sh.cur ch; cur = sh.cur + 1 }, put_char ch w),
            rw (below, ==_ne ch 0x0a n, ==_ne ch 0x08 other),
            rw (room, ==_ne ch 0x08 other)
                (record {
                  storage = length-set sh.buf sh.cur ch ∙ h.storage;
                  cursor = omega (arith, length-append line (ch ∷ []), h.cursor);
                  fits = ground (arith, length-append line (ch ∷ []), h.fits);
                  text = λ i lt. rw h.cursor (
                      append_text sh.buf line ch (ground (arith, h.storage, h.fits)) h.text i
                        (omega (arith, length-append line (ch ∷ []))));
                }),
          )
        ]
  ]

-- A line in an array, ended by a NUL, read as a C string.
string_from-line :
    (buf line : List ℕ)
    → ((i : ℕ) → i < length line → get_elem? buf i ≡ get_elem? line i)
    → get_elem? buf (length line) ≡ some 0
    → NonZero line
    → string_from buf 0 ≡ line
unfolding string_from
string_from-line [] [] text end nz = absurd (ground arith)
string_from-line [] (c ∷ cs) text end nz = absurd (ground arith)
string_from-line (b ∷ buf) [] text end nz = ground arith
string_from-line (b ∷ buf) (c ∷ cs) text end nz =
    let same : b ≡ c = ground (arith, text 0) in
    let rest = string_from-line buf cs (λ i lt. text (suc i) (omega arith)) end nz.1 in
    rw (same, ==_ne c 0 nz.0, rest)

-- The line that a text makes of a line.
abbrev pub edit_all : List ℕ → List ℕ → List ℕ
edit_all [] line = line
edit_all (ch ∷ chs) line = edit_all chs (edit ch line)

abbrev pub NoLineFeed : List ℕ → Type 0
NoLineFeed [] = Unit
NoLineFeed (ch ∷ chs) = (ch ≢ 0x0a) × NoLineFeed chs

module _ (host : Host) (table : List (Command (host.World))) (stack : ℕ → List ℕ) where
  open host use {World, put_char, put_str}

  -- If the buffer holds a line, typing a text without line feeds succeeds, and the buffer then
  -- holds the line that the text makes of it: a printable character is appended and a backspace
  -- drops the last one, until the line has 512 characters.
  pub type_text-HoldsLine :
      (chs line : List ℕ) (sh : DebugShell) (w : World)
      → NoLineFeed chs
      → HoldsLine sh line
      → (s : DebugShell × World) × (type_text host table stack chs (sh, w) ≡ some s)
        × HoldsLine s.0 (edit_all chs line)
  unfolding type_text
  type_text-HoldsLine [] line sh w n h = ((sh, w), refl, h)
  type_text-HoldsLine (ch ∷ chs) line sh w n h =
      let ((sh', w'), one, holds) = put_char-HoldsLine host table stack ch sh w line n.0 h in
      let (s, all, final) = type_text-HoldsLine chs (edit ch line) sh' w' n.1 holds in
      (s, type_text-cons host table stack ch chs (sh, w) one ∙ all, final)

  -- If the buffer holds a line of fewer than 512 characters, none of them NUL, a line feed gives
  -- `Exec` the line as a C string, whatever stood behind it in the buffer; when the command
  -- returns the line is empty and the prompt is printed.
  pub enter_line :
      (line : List ℕ) (sh : DebugShell) (w : World)
      → HoldsLine sh line
      → length line < line_length
      → NonZero line
      → (buf : List ℕ) × (string_from buf 0 ≡ line)
        × (shell_put_char host table stack 0x0a (sh, w)
            ≡ (elim (exec host table stack buf (put_char 0x0a w)) [
              | none ↦ none
              | some w' ↦ some (record sh { buf = buf; cur = 0 }, put_str sh.prompt_str w')
            ]))
        × HoldsLine (record sh { buf = buf; cur = 0 }) []
  unfolding shell_put_char enter
  enter_line line sh w h room nz = (
    set sh.buf sh.cur 0,
    rw h.cursor (
        string_from-line (set sh.buf (length line) 0) line
          (λ i lt.
            get_elem?-set_ne sh.buf (length line) i 0 (λ e. absurd (omega arith)) ∙ h.text i lt)
          (get_elem?-set_self sh.buf (length line) 0 (omega (arith, h.storage))) nz),
    rw (le→ltb 511 sh.cur (omega (arith, h.cursor))),
    record {
      storage = length-set sh.buf sh.cur 0 ∙ h.storage;
      cursor = refl;
      fits = omega arith;
      text = λ i lt. absurd (omega arith);
    },
  )
