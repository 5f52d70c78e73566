-- ===== src/Keyboard/Decode.antt =====
-- main.cpp: what the main loop does with a scan code that it has taken from the queue.
use seccamp_os.Base.{
  ℕ, ◌+◌, ◌-◌, Bool, true, false, Option, none, some, ◌||◌, ◌&&◌, ltb, leb, ◌==◌, not,
  if◌then◌else◌, get_or, bit_and,
}
use seccamp_os.Keyboard.Tables.{keytable_normal, keytable_shifted}

abbrev pub is_shift : ℕ → Bool
is_shift key = (key == 0x2a) || (key == 0x36)

-- The character of a pressed key; 0 is none.
unfoldable pub ascii_of : Bool → ℕ → ℕ
ascii_of shifted key =
    let ascii = if shifted then get_or keytable_shifted key 0 else get_or keytable_normal key 0 in
    if not shifted && (leb b'A' ascii && leb ascii b'Z') then ascii + (b'a' - b'A') else ascii

-- The new `shifted`, and the character for `shell.PutChar`, if any.
unfoldable pub decode : Bool → ℕ → Bool × Option ℕ
decode shifted key =
    if ltb key 0x80
    then if is_shift key
      then (true, none)
      else (let ascii = ascii_of shifted key in
          if ascii == 0 then (shifted, none) else (shifted, some ascii))
    else if is_shift (bit_and key 0x7f)
    then (false, none)
    else (shifted, none)
