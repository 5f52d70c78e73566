-- ===== src/Tests/Consoles.antt =====
-- debug_console.cpp on a console of 3 by 2 cells, and a shell that keeps what it prints.
use seccamp_os.Base.{
  ℕ, zero, suc, ◌<◌, ◌≡◌, refl, arith, some, List, [], ◌∷◌, ◌++◌, length, get_elem?, replicate,
}
use seccamp_os.Graphics.{Format}
use seccamp_os.Console.{Screen, put_char, put_str}
use seccamp_os.Console.Cursor
use seccamp_os.Console.Cursor.{cell, put_str-IsValid, put_char-cell}
use seccamp_os.Shell.{Command, dispatch, Host, DebugShell, default_prompt, type_text, exec}
use seccamp_os.Shell.Words.Exec.{exec_lem}
use seccamp_os.Shell.Line.{HoldsLine, edit, type_text-HoldsLine}

abbrev screen : ℕ → ℕ → Screen
screen x y = (
  record {
    writer = record {
      format = Format.red_green_blue;
      frame_buffer_base = 0x80000000;
      pixels_per_scan_line = 24;
      bytes_per_pixel = 4;
    };
    size = record { width = 3; height = 2 };
    cur = record { x = x; y = y };
  },
  λ _. 0,
)

screen-IsValid : (x y : ℕ) → x < 3 → y < 2 → Cursor.IsValid (screen x y).0
screen-IsValid x y hx hy = record {
  column = hx;
  line = hy;
  width_small = omega arith;
  height_small = omega arith;
}

put_str-IsValid_example : Cursor.IsValid (put_str 0x1000 (b'a' ∷ 0x0a ∷ 0x08 ∷ []) (screen 2 1)).0
put_str-IsValid_example =
    put_str-IsValid 0x1000 (b'a' ∷ 0x0a ∷ 0x08 ∷ []) (screen 2 1)
      (screen-IsValid 2 1 (omega arith) (omega arith))

-- A backspace in the first cell goes to the end of the first line.
put_char-cell_example : cell (put_char 0x1000 0x08 (screen 0 0)).0 ≡ 2
put_char-cell_example =
    put_char-cell 0x1000 0x08 (screen 0 0) (screen-IsValid 0 0 (omega arith) (omega arith))

-- The world is the text printed, the last character first.
abbrev printed : Host
printed = record {
  World = List ℕ;
  put_char = λ c w. c ∷ w;
  put_str = λ s w. s ++ w;
  no_such_command = λ s w. s ++ w;
}

abbrev shell : List ℕ → ℕ → DebugShell
shell buf cur = record { cur = cur; buf = buf; prompt_str = default_prompt }

abbrev zeros : List ℕ
zeros = replicate 510 0

abbrev ls_buf : List ℕ
ls_buf = b'l' ∷ b's' ∷ zeros

length-replicate : (n : ℕ) → length {A = ℕ} (replicate n 0) ≡ n
length-replicate zero = refl
length-replicate (suc n) = omega (arith, length-replicate n)

ls_text : (i : ℕ) → i < 2 → get_elem? ls_buf i ≡ get_elem? (b'l' ∷ b's' ∷ []) i
ls_text zero h = refl
ls_text (suc zero) h = refl
ls_text (suc (suc i)) h = absurd (omega arith)

ls-HoldsLine : HoldsLine (shell ls_buf 2) (b'l' ∷ b's' ∷ [])
ls-HoldsLine = record {
  storage = omega (arith, length-replicate 510);
  cursor = refl;
  fits = omega arith;
  text = ls_text;
}

type_text-HoldsLine_example :
    (s : DebugShell × List ℕ) × (type_text printed []
        (λ _. [])
        (0x08 ∷ b'c' ∷ [])
        (shell ls_buf 2, [])
      ≡ some s)
    × HoldsLine s.0 (b'l' ∷ b'c' ∷ [])
unfolding edit
type_text-HoldsLine_example =
    type_text-HoldsLine printed [] (λ _. []) (0x08 ∷ b'c' ∷ []) (b'l' ∷ b's' ∷ []) (shell ls_buf 2)
      [] (omega arith, (omega arith, tt)) ls-HoldsLine

length-sevens : (n : ℕ) → length {A = ℕ} (replicate n 7) ≡ n
length-sevens zero = refl
length-sevens (suc n) = omega (arith, length-sevens n)

-- A command that prints the number of its arguments.
abbrev counting : Command (List ℕ)
counting = record { name = b'l' ∷ []; func_ptr = λ argc args w. argc ∷ w }

-- A trailing space makes a third, empty argument.
exec_lem_example :
    exec printed
      (counting ∷ [])
      (λ n. replicate n 7)
      (b'l' ∷ b' ' ∷ b' ' ∷ b's' ∷ b' ' ∷ 0 ∷ b'x' ∷ [])
      []
    ≡ some (3 ∷ [])
unfolding dispatch
exec_lem_example =
    exec_lem printed (counting ∷ []) (λ n. replicate n 7) (b'l' ∷ b' ' ∷ b' ' ∷ b's' ∷ b' ' ∷ [])
      (b'x' ∷ []) [] length-sevens
      (omega arith, (omega arith, (omega arith, (omega arith, (omega arith, tt))))) (omega arith)
