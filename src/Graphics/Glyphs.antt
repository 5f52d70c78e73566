-- ===== src/Graphics/Glyphs.antt =====
-- Which pixels `DrawAscii` changes.
use seccamp_os.Base.{
  ℕ, zero, suc, ◌+◌, ◌-◌, ◌*◌, ◌^◌, ◌<◌, ◌≤◌, ◌≡◌, arith, ◌∙◌, Bool, ◌&&◌, Memory, read8, ◌==◌,
  if◌then◌else◌, u64,
}
use native.Mathlib.Decide.{dec_lt, ℕ_discrete}
use seccamp_os.Graphics.{Point, PixelWriter, black, size_of_char, ascii_row, ascii_rows, draw_ascii}
use seccamp_os.Graphics.Pixels.{IsScreen, OnScreen, shown, Outside}
use seccamp_os.Graphics.Shapes.{rgb, between}
use seccamp_os.Graphics.GlyphRows.{lit, ascii_row_lem, row-Outside}

module _ {w : PixelWriter} {columns rows : ℕ} (screen : IsScreen w columns rows)
    (position q : Point) (on : OnScreen columns rows q) where
  lines_from :
      (g : ℕ → Bool) (dy : ℕ) (inside : Bool) (v u : ℕ × ℕ × ℕ)
      → dy < 16
      → (if inside && between (position.y + (dy + 1)) (position.y + 16) q.y && g (q.y - position.y)
          then v
          else (if inside && (position.y + dy == q.y) && g dy then v else u))
        ≡ (if inside && between (position.y + dy) (position.y + 16) q.y && g (q.y - position.y)
            then v
            else u)
  lines_from g dy inside v u h = elim (ℕ_discrete q.y (position.y + dy)) [
    | yes here ↦ let same : q.y - position.y ≡ dy = omega arith in rw same (ground arith)
    | no other ↦ ground arith
  ]

  -- The glyph at `p`, which the frame buffer does not cover.
  ascii_rows_lem :
      (rounds dy p : ℕ) (m : Memory)
      → dy + rounds ≡ 16
      → position.x + 8 ≤ columns
      → position.y + 16 ≤ rows
      → ((i : ℕ) → i < 16 → Outside screen (u64 (p + i)))
      → shown w q (ascii_rows w position rounds dy p m) ≡ (
          if between position.x (position.x + 8) q.x
            && between (position.y + dy) (position.y + 16) q.y
            && lit (read8 m (u64 (p + (q.y - position.y)))) (q.x - position.x)
          then rgb black
          else shown w q m)
  unfolding ascii_rows
  ascii_rows_lem zero dy p m e hx hy out = ground arith
  ascii_rows_lem (suc rounds) dy p m e hx hy out =
      ascii_rows_lem rounds (dy + 1) p _ (omega arith) hx hy out
      ∙ same_glyph
      ∙ rw first (
          lines_from (λ i. lit (read8 m (u64 (p + i))) (q.x - position.x)) dy
            (between position.x (position.x + 8) q.x) (rgb black) (shown w q m) (omega arith))
    where
      line : ℕ
      line = read8 m (u64 (p + dy))

      m' : Memory
      m' = ascii_row w position 8 0 dy line m

      first : shown w q m' ≡ (
          if between position.x (position.x + 8) q.x
            && (position.y + dy == q.y)
            && lit line (q.x - position.x)
          then rgb black
          else shown w q m)
      first =
          let start : position.x + 0 ≡ position.x = omega arith in
          ascii_row_lem screen position q on 8 0 dy line m (omega arith) (omega arith) hx
            (omega arith)
          ∙ rw start

      same_glyph :
          (if between position.x (position.x + 8) q.x
              && between (position.y + (dy + 1)) (position.y + 16) q.y
              && lit (read8 m' (u64 (p + (q.y - position.y)))) (q.x - position.x)
            then rgb black
            else shown w q m')
          ≡ (if between position.x (position.x + 8) q.x
                && between (position.y + (dy + 1)) (position.y + 16) q.y
                && lit (read8 m (u64 (p + (q.y - position.y)))) (q.x - position.x)
              then rgb black
              else shown w q m')
      same_glyph = elim (dec_lt (q.y - position.y) 16) [
        | yes near ↦ rw (
            row-Outside screen position q on 8 0 dy line m (u64 (p + (q.y - position.y)))
              (omega arith) (omega arith) (out (q.y - position.y) near))
        | no far ↦ ground arith
      ]

-- On a screen of four bytes a pixel whose frame buffer fits 32 bits and does not wrap, for an
-- ASCII character, a font outside the frame buffer that does not wrap, and an 8 by 16 cell that
-- lies on the screen, `DrawAscii` paints black exactly the pixels of the cell whose bit is set in
-- the glyph, and leaves every other pixel of the screen as it was.
pub draw_ascii_lem :
    {w : PixelWriter} {columns rows : ℕ} (screen : IsScreen w columns rows) (font : ℕ)
    (position q : Point) (ch : ℕ) (m : Memory)
    → ch < 128
    → font + 16 * 128 < 2 ^ 64
    → ((i : ℕ) → i < 16 * 128 → Outside screen (font + i))
    → position.x + 8 ≤ columns
    → position.y + 16 ≤ rows
    → OnScreen columns rows q
    → shown w q (draw_ascii font w position ch m) ≡ (
        if between position.x (position.x + 8) q.x
          && between position.y (position.y + 16) q.y
          && lit (read8 m (font + 16 * ch + (q.y - position.y))) (q.x - position.x)
        then rgb black
        else shown w q m)
unfolding draw_ascii
draw_ascii_lem {w} {columns} {rows} screen font position q ch m hc hf out hx hy on =
    rw glyph (rows_painted ∙ rw start no_wrap)
  where
    glyph : u64 (font + 16 * size_of_char ch) ≡ font + 16 * ch
    glyph = ground arith

    start : position.y + 0 ≡ position.y
    start = omega arith

    away : (i : ℕ) → i < 16 → Outside screen (u64 (font + 16 * ch + i))
    away i h =
        let e : u64 (font + 16 * ch + i) ≡ font + (16 * ch + i) = omega arith in
        rw e (out (16 * ch + i) (omega arith))

    rows_painted : shown w q (ascii_rows w position 16 0 (font + 16 * ch) m) ≡ (
        if between position.x (position.x + 8) q.x
          && between (position.y + 0) (position.y + 16) q.y
          && lit (read8 m (u64 (font + 16 * ch + (q.y - position.y)))) (q.x - position.x)
        then rgb black
        else shown w q m)
    rows_painted =
        ascii_rows_lem screen position q on 16 0 (font + 16 * ch) m (omega arith) hx hy away

    no_wrap :
        (if between position.x (position.x + 8) q.x
            && between position.y (position.y + 16) q.y
            && lit (read8 m (u64 (font + 16 * ch + (q.y - position.y)))) (q.x - position.x)
          then rgb black
          else shown w q m)
        ≡ (if between position.x (position.x + 8) q.x
              && between position.y (position.y + 16) q.y
              && lit (read8 m (font + 16 * ch + (q.y - position.y))) (q.x - position.x)
            then rgb black
            else shown w q m)
    no_wrap = elim (dec_lt (q.y - position.y) 16) [
      | yes near ↦
          let e : u64 (font + 16 * ch + (q.y - position.y)) ≡ font + 16 * ch + (q.y - position.y) =
            omega arith in
          rw e
      | no far ↦ ground arith
    ]
