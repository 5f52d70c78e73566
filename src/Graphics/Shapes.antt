-- ===== src/Graphics/Shapes.antt =====
-- Which pixels `DrawRect` and `DrawAscii` change.
use seccamp_os.Base.{
  ℕ, zero, suc, ◌+◌, ◌<◌, ◌≤◌, ◌≡◌, arith, ◌∙◌, Bool, ◌&&◌, ltb, leb, Memory, ◌==◌, if◌then◌else◌,
  u8,
}
use seccamp_os.Graphics.{
  Point, RectSize, Color, PixelWriter, point_add, write, rect_row, rect_rows, draw_rect,
}
use seccamp_os.Graphics.Pixels.{IsScreen, OnScreen, shown, write_lem, OnScreen-small}

abbrev pub rgb : Color → ℕ × ℕ × ℕ
rgb c = (u8 c.r, u8 c.g, u8 c.b)

-- `lo ≤ n < hi`
abbrev pub between : ℕ → ℕ → ℕ → Bool
between lo hi n = leb lo n && ltb n hi

module _ {w : PixelWriter} {columns rows : ℕ} (screen : IsScreen w columns rows)
    (position q : Point) (on : OnScreen columns rows q) where
  -- A pixel at an offset that stays on the screen is at the sum of the coordinates.
  pub offset_lem :
      (dx dy : ℕ)
      → position.x + dx < columns
      → position.y + dy < rows
      → point_add position (record { x = dx; y = dy })
        ≡ record { x = position.x + dx; y = position.y + dy }
  unfolding point_add
  offset_lem dx dy hx hy =
      let small =
        OnScreen-small screen (record { x = position.x + dx; y = position.y + dy }) (hx, hy) in
      ground arith

  pub write_offset :
      (dx dy : ℕ) (c : Color) (m : Memory)
      → position.x + dx < columns
      → position.y + dy < rows
      → shown w q (write w (point_add position (record { x = dx; y = dy })) c m)
        ≡ (if (position.x + dx == q.x) && (position.y + dy == q.y) then rgb c else shown w q m)
  write_offset dx dy c m hx hy =
      rw (offset_lem dx dy hx hy)
        (write_lem screen (record { x = position.x + dx; y = position.y + dy }) q c m (hx, hy) on)

  rect_row_lem :
      (color : Color) (rounds dx dy : ℕ) (m : Memory)
      → position.x + (dx + rounds) ≤ columns
      → position.y + dy < rows
      → shown w q (rect_row w position rounds dx dy color m) ≡ (
          if between (position.x + dx) (position.x + (dx + rounds)) q.x && (position.y + dy == q.y)
          then rgb color
          else shown w q m)
  unfolding rect_row
  rect_row_lem color zero dx dy m hx hy = ground arith
  rect_row_lem color (suc rounds) dx dy m hx hy =
      rect_row_lem color rounds (dx + 1) dy _ (omega arith) hy
      ∙ rw (write_offset dx dy color m (omega arith) hy) (ground arith)

  rect_rows_lem :
      (color : Color) (width rounds dy : ℕ) (m : Memory)
      → position.x + width ≤ columns
      → position.y + (dy + rounds) ≤ rows
      → shown w q (rect_rows w position rounds width dy color m) ≡ (
          if between position.x (position.x + width) q.x
            && between (position.y + dy) (position.y + (dy + rounds)) q.y
          then rgb color
          else shown w q m)
  unfolding rect_rows
  rect_rows_lem color width zero dy m hx hy = ground arith
  rect_rows_lem color width (suc rounds) dy m hx hy =
      rect_rows_lem color width rounds (dy + 1) _ hx (omega arith)
      ∙ rw (rect_row_lem color width 0 dy m (omega arith) (omega arith)) (ground arith)

-- On a screen of four bytes a pixel whose frame buffer fits 32 bits and does not wrap and for a
-- rectangle that lies on it, `DrawRect` gives the colour to the pixels of the rectangle and
-- leaves every other pixel of the screen as it was.
pub draw_rect_lem :
    {w : PixelWriter} {columns rows : ℕ}
    → IsScreen w columns rows
    → (position q : Point) (size : RectSize) (color : Color) (m : Memory)
    → position.x + size.width ≤ columns
    → position.y + size.height ≤ rows
    → OnScreen columns rows q
    → shown w q (draw_rect w position size color m) ≡ (
        if between position.x (position.x + size.width) q.x
          && between position.y (position.y + size.height) q.y
        then rgb color
        else shown w q m)
unfolding draw_rect
draw_rect_lem screen position q size color m hx hy on =
    rect_rows_lem screen position q on color size.width size.height 0 m hx (omega arith)
    ∙ ground arith
