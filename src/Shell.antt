-- ===== src/Shell.antt =====
-- debug_console.hpp, debug_console.cpp, command.hpp: `DebugShell` and the command table. What a
-- command does, and what `printf` of the C library does with its text, is a parameter.
pub mod Full
pub mod Line
pub mod Words
pub mod Script
pub mod Dispatch
use seccamp_os.Base.{
  ℕ, zero, suc, ◌+◌, ◌-◌, Bool, true, false, Option, none, some, List, [], ◌∷◌, ◌++◌, ◌==◌, ◌&&◌,
  ltb, leb, if◌then◌else◌, length, get_or, set, replicate,
}

abbrev pub line_length : ℕ
line_length = 512

-- `const char* const kDefaultPrompt = "$ "`
abbrev pub default_prompt : List ℕ
default_prompt = b'$' ∷ b' ' ∷ []

-- The state around the shell: the console with its memory, and what the commands use.
pub record Host : Type 1 where
  pub World : Type 0
  pub put_char : ℕ → World → World
  pub put_str : List ℕ → World → World
  -- `printf("no such command: %s\n", name)`
  pub no_such_command : List ℕ → World → World

-- `struct Command`; the function takes `argc` and the strings of `argv`.
pub record Command (W : Type 0) : Type 0 where
  pub name : List ℕ
  pub func_ptr : ℕ → List (List ℕ) → W → W

pub record DebugShell : Type 0 where
  pub cur : ℕ
  pub buf : List ℕ
  pub prompt_str : List ℕ

-- The C string at index `i` of an array; a read outside the array counts as the NUL.
unfoldable pub string_from : List ℕ → ℕ → List ℕ
string_from [] i = []
string_from (c ∷ cs) zero = if c == 0 then [] else c ∷ string_from cs zero
string_from (c ∷ cs) (suc i) = string_from cs i

-- `for (; i < len && buf_[i] == ' '; ++i) s[i] = '\0';` with `rounds` being `len - i`.
unfoldable pub skip_spaces : List ℕ → ℕ → ℕ → List ℕ → ℕ × List ℕ
skip_spaces buf zero i s = (i, s)
skip_spaces buf (suc rounds) i s =
    let next = skip_spaces buf rounds (i + 1) (set s i 0) in
    if get_or buf i 0 == b' ' then next else (i, s)

-- `for (; i < len && buf_[i] != ' '; ++i) s[i] = buf_[i];` likewise.
unfoldable pub copy_word : List ℕ → ℕ → ℕ → List ℕ → ℕ × List ℕ
copy_word buf zero i s = (i, s)
copy_word buf (suc rounds) i s =
    let next = copy_word buf rounds (i + 1) (set s i (get_or buf i 0)) in
    if get_or buf i 0 == b' ' then (i, s) else next

-- What the splitting of a line comes to: the array `s` with the offsets in `argv`, or a write
-- behind the end of `argv`.
pub data Parsed : Type 0 where
  parsed : (s : List ℕ) (argv : List ℕ) → Parsed
  overflow : Parsed
  out_of_fuel : Parsed

abbrev pub max_args : ℕ
max_args = 128

-- The `while (true)` of `Exec`.
unfoldable pub split_line : ℕ → List ℕ → ℕ → ℕ → List ℕ → List ℕ → Parsed
split_line zero buf len i s argv = Parsed.out_of_fuel
split_line (suc fuel) buf len i s argv =
    let (i₁, s₁) = skip_spaces buf (len - i) i s in
    let (i₂, s₂) = copy_word buf (len - i₁) i₁ s₁ in
    let rest = split_line fuel buf len (i₂ + 1) (set s₂ i₂ 0) (argv ++ (i₁ ∷ [])) in
    if ltb len i₁
    then Parsed.parsed s₁ argv
    else (if leb max_args (length argv) then Parsed.overflow else rest)

abbrev pub same_text : List ℕ → List ℕ → Bool
same_text [] [] = true
same_text (a ∷ rest) (b ∷ other) = (a == b) && same_text rest other
same_text _ _ = false

unfoldable pub strings : List ℕ → List ℕ → List (List ℕ)
strings s [] = []
strings s (off ∷ argv) = string_from s off ∷ strings s argv

abbrev pub first : List (List ℕ) → List ℕ
first [] = []
first (name ∷ args) = name

module _ (host : Host) where
  open host use {World, put_char, put_str, no_such_command}

  -- The loop over `command::table`.
  unfoldable pub dispatch : List (Command World) → List (List ℕ) → World → World
  dispatch [] args w = no_such_command (first args) w
  dispatch (cmd ∷ table) args w =
      let next = dispatch table args w in
      if same_text (first args) cmd.name then cmd.func_ptr (length args) args w else next

  -- `Exec`; `none` is a write outside `argv`. The array `s` holds what was on the stack.
  unfoldable pub exec : List (Command World) → (ℕ → List ℕ) → List ℕ → World → Option World
  exec table stack buf w =
      let len = length (string_from buf 0) in
      if len == 0 then some w else (elim (split_line (len + 2) buf len 0 (stack (len + 1)) []) [
        | Parsed.parsed s argv ↦ some (dispatch table (strings s argv) w)
        | Parsed.overflow ↦ none
        | Parsed.out_of_fuel ↦ none
      ])

  -- The constructor of the shell; the array holds what was in the storage.
  unfoldable pub construct : List ℕ → World → DebugShell × World
  construct storage w =
      (record { cur = 0; buf = storage; prompt_str = default_prompt }, put_str default_prompt w)

  module _ (table : List (Command World)) (stack : ℕ → List ℕ) where
    -- The branch of `PutChar` for a line feed.
    unfoldable pub enter : DebugShell → World → Option (DebugShell × World)
    enter sh w =
        let buf = set sh.buf sh.cur 0 in
        elim (exec table stack buf (put_char 0x0a w)) [
          | none ↦ none
          | some w' ↦ some (record sh { buf = buf; cur = 0 }, put_str sh.prompt_str w')
        ]

    unfoldable pub shell_put_char : ℕ → DebugShell × World → Option (DebugShell × World)
    shell_put_char ch (sh, w) =
        if ltb (line_length - 1) sh.cur
        then some (sh, w)
        else (if ch == 0x0a
            then enter sh w
            else (if ch == 0x08
                then (if sh.cur == 0
                    then some (sh, w)
                    else some (record sh { cur = sh.cur - 1 }, put_char ch w))
                else some
                    (record sh { buf = set sh.buf sh.cur ch; cur = sh.cur + 1 }, put_char ch w)))

    -- Characters one after another, as the main loop hands them over.
    unfoldable pub type_text : List ℕ → DebugShell × World → Option (DebugShell × World)
    type_text [] s = some s
    type_text (ch ∷ chs) s = elim (shell_put_char ch s) [ none ↦ none | some s' ↦ type_text chs s' ]
