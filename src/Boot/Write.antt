-- ===== src/Boot/Write.antt =====
-- main.cpp: `write` puts characters on the console.
use seccamp_os.Base.{ℕ, ◌+◌, ◌^◌, ◌<◌, ◌≡◌, refl, some, List, [], ◌∷◌, read8, length, lt→ltb}
use seccamp_os.Console.{DebugConsole, Screen}
use seccamp_os.Console
use seccamp_os.Boot.{Output, write_chars, write}

module _ (font : ℕ) where
  -- Each character stands in the buffer when it is its turn.
  abbrev pub Stands : List ℕ → ℕ → Screen → Type 0
  Stands [] ptr screen = Unit
  Stands (ch ∷ chs) ptr screen =
      (read8 screen.1 ptr ≡ ch) × Stands chs (ptr + 1) (Console.put_char font ch screen)

  write_chars_lem :
      (chs : List ℕ) (ptr : ℕ) (screen : Screen)
      → Stands chs ptr screen
      → write_chars font (length chs) ptr screen ≡ Console.put_str font chs screen
  unfolding write_chars Console.put_str
  write_chars_lem [] ptr screen h = refl
  write_chars_lem (ch ∷ chs) ptr (console, m) (here, later) =
      rw (write_chars, here)
        (write_chars_lem chs (ptr + 1) (Console.put_char font ch (console, m)) later)

  module _ (ebadf einval : ℕ) where
    -- If a console is set and each of fewer than 2 ^ 31 characters stands in the buffer when it
    -- is its turn, `write` to file 1 returns their number and has put them on the console in
    -- order.
    pub write-put_str :
        (chs : List ℕ) (ptr : ℕ) (out : Output) (console : DebugConsole)
        → length chs < 2 ^ 31
        → out.default_debug_console ≡ some console
        → Stands chs ptr (console, out.memory)
        → let (console', m) = Console.put_str font chs (console, out.memory) in
          write ebadf einval font 1 ptr (length chs) out
          ≡ (length chs, record out { default_debug_console = some console'; memory = m })
    unfolding write
    write-put_str chs ptr out console short set h =
        rw
          (set, lt→ltb (length chs) (2 ^ 31) short, write_chars_lem chs ptr (console, out.memory) h)
          refl
