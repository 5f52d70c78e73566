-- ===== src/Console.antt =====
-- debug_console.hpp, debug_console.cpp: `DebugConsole`, over the screen of Graphics. `font` is the
-- address of the font.
pub mod Cursor
use seccamp_os.Base.{
  ℕ, ◌+◌, ◌*◌, ◌%◌, ◌^◌, List, [], ◌∷◌, Memory, ltb, ◌==◌, if◌then◌else◌, sub32, u32, is_positive,
}
use seccamp_os.Graphics.{Point, RectSize, Color, PixelWriter, draw_rect, draw_ascii}

pub record DebugConsole : Type 0 where
  pub writer : PixelWriter
  pub size : RectSize
  pub cur : Point

abbrev pub to_pixel : Point → Point
to_pixel cur = record { x = u32 (8 * cur.x); y = u32 (16 * cur.y) }

unfoldable pub construct : PixelWriter → RectSize → DebugConsole
construct writer size = record { writer = writer; size = size; cur = record { x = 0; y = 0 } }

-- `cur_.y < size_.height - 1` compares without sign.
unfoldable pub newline : DebugConsole → DebugConsole
newline c = record c {
  cur = record {
    x = 0;
    y = if ltb c.cur.y (sub32 c.size.height 1) then u32 (c.cur.y + 1) else c.cur.y;
  };
}

unfoldable pub backspace : DebugConsole → DebugConsole
backspace c =
    if is_positive c.cur.x
    then record c { cur = record { x = sub32 c.cur.x 1; y = c.cur.y } }
    else record c {
      cur = record {
        x = sub32 c.size.width 1;
        y = if is_positive c.cur.y then sub32 c.cur.y 1 else c.cur.y;
      };
    }

abbrev white : Color
white = record { r = 255; g = 255; b = 255; a = 0 }

unfoldable pub erase_cursor : DebugConsole → Memory → Memory
erase_cursor c m = draw_rect c.writer (to_pixel c.cur) (record { width = 8; height = 16 }) white m

-- Behind a character that has been drawn.
unfoldable pub move_right : DebugConsole → DebugConsole
unfolding newline
move_right c =
    if ltb c.cur.x (sub32 c.size.width 1)
    then record c { cur = record { x = u32 (c.cur.x + 1); y = c.cur.y } }
    else newline c

-- A console and the memory that it draws in.
abbrev pub Screen : Type 0
Screen = DebugConsole × Memory

module _ (font : ℕ) where
  unfoldable pub draw_cursor : DebugConsole → Memory → Memory
  draw_cursor c m =
      draw_ascii font c.writer (to_pixel c.cur) b'_'
        (draw_rect c.writer (to_pixel c.cur) (record { width = 8; height = 16 }) white m)

  unfoldable pub put_char : ℕ → Screen → Screen
  put_char ch (c, m) =
      let erased = erase_cursor c m in
      if ch == 0x0a
      then (newline c, erased)
      else (if ch == 0x08 then (backspace c, draw_cursor (backspace c) erased) else (
        move_right c,
        draw_cursor (move_right c) (draw_ascii font c.writer (to_pixel c.cur) ch erased),
      ))

  -- `PutStr` of a string, its terminating NUL left off.
  unfoldable pub put_str : List ℕ → Screen → Screen
  unfolding put_char
  put_str [] s = s
  put_str (ch ∷ chs) s = put_str chs (put_char ch s)
