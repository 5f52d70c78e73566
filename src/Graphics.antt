-- ===== src/Graphics.antt =====
-- graphics.hpp, graphics.cpp: points, pixel writers, characters and rectangles. An `int` is its
-- 32-bit pattern, so that the mixed signed and unsigned arithmetic is arithmetic modulo 2 ^ 32.
pub mod Pixels
pub mod Shapes
pub mod GlyphRows
pub mod Glyphs
pub mod Points
use seccamp_os.Base.{
  ℕ, zero, suc, ◌+◌, ◌-◌, ◌*◌, ◌%◌, ◌^◌, Memory, read8, write8, bit_and, ltb, ◌==◌, if◌then◌else◌,
  ◌<<<◌, u8, u32, u64,
}

pub record Point : Type 0 where
  pub x : ℕ
  pub y : ℕ

-- `operator +(const Point&, const Point&)`
unfoldable pub point_add : Point → Point → Point
point_add lhs rhs = record { x = u32 (lhs.x + rhs.x); y = u32 (lhs.y + rhs.y) }

pub record RectSize : Type 0 where
  pub width : ℕ
  pub height : ℕ

-- `operator +(const Point&, const RectSize&)`: both coordinates take the width.
unfoldable pub point_add_size : Point → RectSize → Point
point_add_size p s = record { x = u32 (p.x + s.width); y = u32 (p.y + s.width) }

unfoldable pub size_add_point : RectSize → Point → Point
unfolding point_add_size
size_add_point s p = point_add_size p s

pub record Color : Type 0 where
  pub r : ℕ
  pub g : ℕ
  pub b : ℕ
  pub a : ℕ

-- The two subclasses of `PixelWriter`.
pub data Format : Type 0 where
  red_green_blue : Format
  blue_green_red : Format

pub record PixelWriter : Type 0 where
  pub format : Format
  pub frame_buffer_base : ℕ
  pub pixels_per_scan_line : ℕ
  pub bytes_per_pixel : ℕ

-- bootparam.h: the formats of a pixel, and the fields of `GraphicMode` that the kernel reads.
pub data GraphicPixelFormat : Type 0 where
  red_green_blue_reserved : GraphicPixelFormat
  blue_green_red_reserved : GraphicPixelFormat
  bit_mask : GraphicPixelFormat
  blt_only : GraphicPixelFormat
  format_max : GraphicPixelFormat

pub record GraphicMode : Type 0 where
  pub frame_buffer_base : ℕ
  pub horizontal_resolution : ℕ
  pub vertical_resolution : ℕ
  pub pixel_format : GraphicPixelFormat
  pub pixels_per_scan_line : ℕ

-- The constructors of the two subclasses.
unfoldable pub pixel_writer : Format → GraphicMode → PixelWriter
pixel_writer format mode = record {
  format = format;
  frame_buffer_base = mode.frame_buffer_base;
  pixels_per_scan_line = mode.pixels_per_scan_line;
  bytes_per_pixel = 4;
}

unfoldable pub calc_pixel_addr : PixelWriter → Point → ℕ
calc_pixel_addr w pixel = u64 (
    w.frame_buffer_base
    + u32 (w.bytes_per_pixel * u32 (u32 (w.pixels_per_scan_line * pixel.y) + pixel.x)))

abbrev pub write_bytes : ℕ → ℕ → ℕ → ℕ → Memory → Memory
write_bytes p c₀ c₁ c₂ m = write8 (write8 (write8 m p c₀) (p + 1) c₁) (p + 2) c₂

-- `PixelWriter::Write`, by subclass.
abbrev pub write_at : Format → ℕ → Color → Memory → Memory
write_at Format.red_green_blue p color m = write_bytes p color.r color.g color.b m
write_at Format.blue_green_red p color m = write_bytes p color.b color.g color.r m

unfoldable pub write : PixelWriter → Point → Color → Memory → Memory
write w position color m = write_at w.format (calc_pixel_addr w position) color m

abbrev pub black : Color
black = record { r = 0; g = 0; b = 0; a = 0 }

-- A `char` as a `size_t`: it is signed.
abbrev pub size_of_char : ℕ → ℕ
size_of_char ch = if ltb ch 128 then ch else 2 ^ 64 - 256 + ch

module _ (w : PixelWriter) (position : Point) where
  -- The loop over `dx` of `DrawAscii`, with `rounds` left.
  unfoldable pub ascii_row : ℕ → ℕ → ℕ → ℕ → Memory → Memory
  ascii_row zero dx dy pixels m = m
  ascii_row (suc rounds) dx dy pixels m = ascii_row rounds (dx + 1) dy (u8 (pixels <<< 1)) (
      if bit_and pixels 0x80 == 0
      then m
      else write w (point_add position (record { x = dx; y = dy })) black m)

  -- The loop over `dy`, with the glyph at address `p`.
  unfoldable pub ascii_rows : ℕ → ℕ → ℕ → Memory → Memory
  ascii_rows zero dy p m = m
  ascii_rows (suc rounds) dy p m =
      ascii_rows rounds (dy + 1) p (ascii_row 8 0 dy (read8 m (u64 (p + dy))) m)

  -- The loops of `DrawRect`.
  unfoldable pub rect_row : ℕ → ℕ → ℕ → Color → Memory → Memory
  rect_row zero dx dy color m = m
  rect_row (suc rounds) dx dy color m =
      rect_row rounds (dx + 1) dy color
        (write w (point_add position (record { x = dx; y = dy })) color m)

  unfoldable pub rect_rows : ℕ → ℕ → ℕ → Color → Memory → Memory
  rect_rows zero width dy color m = m
  rect_rows (suc rounds) width dy color m =
      rect_rows rounds width (dy + 1) color (rect_row width 0 dy color m)

-- `font` is the address of `_binary_hankaku_bin_start`.
unfoldable pub draw_ascii : ℕ → PixelWriter → Point → ℕ → Memory → Memory
draw_ascii font w position ch m = ascii_rows w position 16 0 (u64 (font + 16 * size_of_char ch)) m

unfoldable pub draw_rect : PixelWriter → Point → RectSize → Color → Memory → Memory
draw_rect w position size color m = rect_rows w position size.height size.width 0 color m
