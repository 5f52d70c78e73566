-- ===== src/Graphics/GlyphRows.antt =====
-- graphics.cpp: which pixels one line of a glyph changes.
use seccamp_os.Base.{
  ℕ, zero, suc, ◌+◌, ◌-◌, ◌*◌, ◌%◌, ◌/◌, ◌^◌, ◌<◌, ◌≤◌, ◌≡◌, inl, inr, refl, arith, ◌∙◌, Bool, true,
  false, ◌&&◌, Memory, read8, ◌==◌, if◌then◌else◌, u8, bit_and, bit_and-field, Bool-cases,
}
use native.Mathlib.Decide.{dec_lt}
use seccamp_os.Graphics.{Point, PixelWriter, point_add, write, black, ascii_row}
use seccamp_os.Graphics.Pixels.{IsScreen, OnScreen, shown, write-Outside, Outside}
use seccamp_os.Graphics.Shapes.{rgb, between, offset_lem, write_offset}

-- Column `k` of a line of a glyph, from the left: bit 7 - `k`.
unfoldable pub lit : ℕ → ℕ → Bool
lit pixels k = pixels / 2 ^ (7 - k) % 2 == 1

lit-suc : (k pixels : ℕ) → k < 7 → pixels < 256 → lit (u8 (pixels * 2)) k ≡ lit pixels (suc k)
unfolding lit
lit-suc zero p h hp = ground arith
lit-suc (suc zero) p h hp = ground arith
lit-suc (suc (suc zero)) p h hp = ground arith
lit-suc (suc (suc (suc zero))) p h hp = ground arith
lit-suc (suc (suc (suc (suc zero)))) p h hp = ground arith
lit-suc (suc (suc (suc (suc (suc zero))))) p h hp = ground arith
lit-suc (suc (suc (suc (suc (suc (suc zero)))))) p h hp = ground arith
lit-suc (suc (suc (suc (suc (suc (suc (suc k))))))) p h hp = absurd (omega arith)

lit-zero : (pixels : ℕ) → (bit_and pixels 0x80 == 0) ≡ (if lit pixels 0 then false else true)
unfolding lit
lit-zero pixels = ground (arith, bit_and-field 1 7 pixels)

module _ {w : PixelWriter} {columns rows : ℕ} (screen : IsScreen w columns rows)
    (position q : Point) (on : OnScreen columns rows q) where
  -- The pixel that one round of the inner loop may paint.
  painted :
      (dx dy pixels : ℕ) (m : Memory)
      → position.x + dx < columns
      → position.y + dy < rows
      → shown w q (
          if bit_and pixels 0x80 == 0
          then m
          else write w (point_add position (record { x = dx; y = dy })) black m)
        ≡ (if (position.x + dx == q.x) && (position.y + dy == q.y) && lit pixels 0
            then rgb black
            else shown w q m)
  painted dx dy pixels m hx hy = elim (Bool-cases (lit pixels 0)) [
    | inl set ↦
        rw (lit-zero pixels, set)
          (write_offset screen position q on dx dy black m hx hy ∙ ground arith)
    | inr blank ↦ rw (lit-zero pixels, blank) (ground arith)
  ]

  -- The columns from `dx` on are column `dx` and those behind it.
  columns_from :
      (dx dy pixels : ℕ) (v u : ℕ × ℕ × ℕ)
      → dx < 8
      → pixels < 256
      → (if between (position.x + (dx + 1)) (position.x + 8) q.x
            && (position.y + dy == q.y)
            && lit (u8 (pixels * 2 ^ 1)) (q.x - (position.x + (dx + 1)))
          then v
          else (if (position.x + dx == q.x) && (position.y + dy == q.y) && lit pixels 0
              then v
              else u))
        ≡ (if between (position.x + dx) (position.x + 8) q.x
              && (position.y + dy == q.y)
              && lit pixels (q.x - (position.x + dx))
            then v
            else u)
  columns_from dx dy pixels v u h hp = elim (dec_lt (position.x + dx) q.x) [
    | yes behind ↦
        let next : q.x - (position.x + dx) ≡ suc (q.x - (position.x + (dx + 1))) = omega arith in
        rw next (ground (arith, lit-suc (q.x - (position.x + (dx + 1))) pixels))
    | no here ↦ let first : q.x - (position.x + dx) ≡ 0 = omega arith in rw first (ground arith)
  ]

  pub ascii_row_lem :
      (rounds dx dy pixels : ℕ) (m : Memory)
      → dx + rounds ≡ 8
      → pixels < 256
      → position.x + 8 ≤ columns
      → position.y + dy < rows
      → shown w q (ascii_row w position rounds dx dy pixels m) ≡ (
          if between (position.x + dx) (position.x + 8) q.x
            && (position.y + dy == q.y)
            && lit pixels (q.x - (position.x + dx))
          then rgb black
          else shown w q m)
  unfolding ascii_row
  ascii_row_lem zero dx dy pixels m e hp hx hy = ground arith
  ascii_row_lem (suc rounds) dx dy pixels m e hp hx hy =
      ascii_row_lem rounds (dx + 1) dy (u8 (pixels * 2 ^ 1)) _ (omega arith) (omega arith) hx hy
      ∙ rw (painted dx dy pixels m (omega arith) hy)
          (columns_from dx dy pixels (rgb black) (shown w q m) (omega arith) hp)

  one-Outside :
      (dx dy pixels : ℕ) (m : Memory) (b : ℕ)
      → position.x + dx < columns
      → position.y + dy < rows
      → Outside screen b
      → read8
          (if bit_and pixels 0x80 == 0
            then m
            else write w (point_add position (record { x = dx; y = dy })) black m)
          b
        ≡ read8 m b
  one-Outside dx dy pixels m b hx hy out = elim (Bool-cases (bit_and pixels 0x80 == 0)) [
    | inl blank ↦ rw blank
    | inr set ↦
        rw (set, offset_lem screen position q on dx dy hx hy)
          (write-Outside screen (record { x = position.x + dx; y = position.y + dy }) black m b
            (hx, hy) out)
  ]

  pub row-Outside :
      (rounds dx dy pixels : ℕ) (m : Memory) (b : ℕ)
      → position.x + (dx + rounds) ≤ columns
      → position.y + dy < rows
      → Outside screen b
      → read8 (ascii_row w position rounds dx dy pixels m) b ≡ read8 m b
  unfolding ascii_row
  row-Outside zero dx dy pixels m b hx hy out = refl
  row-Outside (suc rounds) dx dy pixels m b hx hy out =
      row-Outside rounds (dx + 1) dy _ _ b (omega arith) hy out
      ∙ one-Outside dx dy pixels m b (omega arith) hy out
