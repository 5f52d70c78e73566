-- ===== src/Tests/Drawing.antt =====
-- graphics.cpp on a screen of 16 by 20 pixels.
use seccamp_os.Base.{ℕ, ◌≡◌, inl, refl, arith, Memory}
use seccamp_os.Graphics.{Point, Color, Format, PixelWriter, draw_rect, draw_ascii}
use seccamp_os.Graphics.Pixels.{IsScreen, shown}
use seccamp_os.Graphics.Shapes.{draw_rect_lem}
use seccamp_os.Graphics.GlyphRows.{lit}
use seccamp_os.Graphics.Glyphs.{draw_ascii_lem}

abbrev writer : PixelWriter
writer = record {
  format = Format.blue_green_red;
  frame_buffer_base = 0x80000000;
  pixels_per_scan_line = 32;
  bytes_per_pixel = 4;
}

writer-IsScreen : IsScreen writer 16 20
writer-IsScreen = record {
  pixel_size = refl;
  wide = omega arith;
  fits = omega arith;
  below_top = omega arith;
}

abbrev red : Color
red = record { r = 255; g = 0; b = 0; a = 0 }

abbrev at : ℕ → ℕ → Point
at x y = record { x = x; y = y }

abbrev dark : Memory
dark = λ _. 0

draw_rect_lem_example :
    shown writer (at 9 17) (draw_rect writer (at 2 2) (record { width = 8; height = 16 }) red dark)
    ≡ (255, 0, 0)
draw_rect_lem_example =
    draw_rect_lem writer-IsScreen (at 2 2) (at 9 17) (record { width = 8; height = 16 }) red dark
      (omega arith) (omega arith) (omega arith, omega arith)

-- A font whose glyphs have their outer columns set.
abbrev framed : Memory
framed = λ _. 0x81

draw_ascii_lem_example :
    shown writer (at 9 5) (draw_ascii 0x1000 writer (at 2 2) b'A' framed) ≡ (0, 0, 0)
unfolding lit
draw_ascii_lem_example =
    draw_ascii_lem writer-IsScreen 0x1000 (at 2 2) (at 9 5) b'A' framed (omega arith) (omega arith)
      (λ i h. inl (omega arith)) (omega arith) (omega arith) (omega arith, omega arith)
