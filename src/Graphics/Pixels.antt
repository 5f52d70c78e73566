-- ===== src/Graphics/Pixels.antt =====
-- Pixels of the screen as cells of memory.
use seccamp_os.Base.{
  ℕ, ◌+◌, ◌*◌, ◌^◌, ◌<◌, ◌≤◌, ◌≡◌, ◌⊎◌, inl, inr, arith, ◌∙◌, sym, ==_iff, Bool-cases, Bool, ◌&&◌,
  Memory, read8, write8, ◌==◌, if◌then◌else◌, u8,
}
use seccamp_os.Graphics.{Point, Color, Format, PixelWriter, calc_pixel_addr, write, write_at}

-- A screen of `columns` by `rows` pixels whose frame buffer does not wrap.
pub record IsScreen (w : PixelWriter) (columns rows : ℕ) : Type 0 where
  pub pixel_size : w.bytes_per_pixel ≡ 4
  pub wide : columns ≤ w.pixels_per_scan_line
  pub fits : 4 * (w.pixels_per_scan_line * rows) < 2 ^ 32
  pub below_top : w.frame_buffer_base + 4 * (w.pixels_per_scan_line * rows) < 2 ^ 64

abbrev pub OnScreen : ℕ → ℕ → Point → Type 0
OnScreen columns rows p = (p.x < columns) × (p.y < rows)

abbrev pub index : PixelWriter → Point → ℕ
index w p = w.pixels_per_scan_line * p.y + p.x

line-injective : (n y y' x x' : ℕ) → x < n → x' < n → n * y + x ≡ n * y' + x' → y ≡ y'
line-injective n y y' x x' h h' e = grind arith

area_bounds : (n r x : ℕ) → x < n → 0 < r → 4 * (n * r) < 2 ^ 32 → x < 2 ^ 30
area_bounds n r x h pos a = grind arith

area_bounds_right : (n r y : ℕ) → 0 < n → y < r → 4 * (n * r) < 2 ^ 32 → y < 2 ^ 30
area_bounds_right n r y pos h a = grind arith

abbrev pub same_point : Point → Point → Bool
same_point p q = (p.x == q.x) && (p.y == q.y)

abbrev pub bytes_at : Format → ℕ → Memory → ℕ × ℕ × ℕ
bytes_at Format.red_green_blue a m = (read8 m a, read8 m (a + 1), read8 m (a + 2))
bytes_at Format.blue_green_red a m = (read8 m (a + 2), read8 m (a + 1), read8 m a)

-- Red, green and blue of a pixel, as the frame buffer holds them.
abbrev pub shown : PixelWriter → Point → Memory → ℕ × ℕ × ℕ
shown w q m = bytes_at w.format (w.frame_buffer_base + 4 * index w q) m

-- A cell of four bytes after a write to a cell.
bytes_at-write_at :
    (f : Format) (base i j : ℕ) (c : Color) (m : Memory)
    → bytes_at f (base + 4 * j) (write_at f (base + 4 * i) c m)
      ≡ (if i == j then (u8 c.r, u8 c.g, u8 c.b) else bytes_at f (base + 4 * j) m)
unfolding write8
bytes_at-write_at Format.red_green_blue base i j c m = ground arith
bytes_at-write_at Format.blue_green_red base i j c m = ground arith

write_at_outside :
    (f : Format) (base i n : ℕ) (c : Color) (m : Memory) (b : ℕ)
    → i < n
    → (b < base) ⊎ (base + 4 * n ≤ b)
    → read8 (write_at f (base + 4 * i) c m) b ≡ read8 m b
unfolding write8
write_at_outside Format.red_green_blue base i n c m b h out = ground arith
write_at_outside Format.blue_green_red base i n c m b h out = ground arith

module _ {w : PixelWriter} {columns rows : ℕ} (screen : IsScreen w columns rows) where
  pub index-lt : (p : Point) → OnScreen columns rows p → index w p < w.pixels_per_scan_line * rows
  index-lt p on = grind (arith, screen.wide)

  -- The coordinates of the screen are small.
  pub OnScreen-small : (p : Point) → OnScreen columns rows p → (p.x < 2 ^ 30) × (p.y < 2 ^ 30)
  OnScreen-small p on =
      let area : 4 * (w.pixels_per_scan_line * rows) < 2 ^ 32 = screen.fits in
      (
        area_bounds w.pixels_per_scan_line rows p.x (omega (arith, screen.wide)) (omega arith) area,
        area_bounds_right w.pixels_per_scan_line rows p.y (omega (arith, screen.wide)) (omega arith)
            area,
      )

  index-injective :
      (p q : Point)
      → OnScreen columns rows p
      → OnScreen columns rows q
      → index w p ≡ index w q
      → p ≡ q
  index-injective p q hp hq e =
      let same : p.y ≡ q.y =
        line-injective w.pixels_per_scan_line p.y q.y p.x q.x (omega (arith, screen.wide))
          (omega (arith, screen.wide)) e in
      ground arith

  -- On a screen whose frame buffer has four bytes a pixel, fits 32 bits and does not wrap, the
  -- address of a pixel of the screen is the base plus four times its place, line after line.
  pub calc_pixel_addr_lem :
      (p : Point)
      → OnScreen columns rows p
      → calc_pixel_addr w p ≡ w.frame_buffer_base + 4 * index w p
  unfolding calc_pixel_addr
  calc_pixel_addr_lem p on =
      let small = index-lt p on in
      rw screen.pixel_size (omega (arith, screen.fits, screen.below_top))

  index-eq :
      (p q : Point)
      → OnScreen columns rows p
      → OnScreen columns rows q
      → (index w p == index w q) ≡ same_point p q
  index-eq p q hp hq = elim (Bool-cases (index w p == index w q)) [
    | inl e ↦ let same = index-injective p q hp hq ((==_iff _ _).0 e) in rw same (ground arith)
    | inr e ↦ elim (Bool-cases (same_point p q)) [ inl f ↦ ground arith | inr f ↦ e ∙ sym f ]
  ]

  -- On a screen whose frame buffer has four bytes a pixel, fits 32 bits and does not wrap, a
  -- `Write` gives the colour to its pixel and leaves every other pixel of the screen as it was.
  pub write_lem :
      (p q : Point) (c : Color) (m : Memory)
      → OnScreen columns rows p
      → OnScreen columns rows q
      → shown w q (write w p c m)
        ≡ (if same_point p q then (u8 c.r, u8 c.g, u8 c.b) else shown w q m)
  unfolding write
  write_lem p q c m hp hq = rw (
    calc_pixel_addr_lem p hp,
    bytes_at-write_at w.format w.frame_buffer_base (index w p) (index w q) c m,
    index-eq p q hp hq,
  )

  -- A byte outside the frame buffer.
  abbrev pub Outside : ℕ → Type 0
  Outside b =
      (b < w.frame_buffer_base) ⊎ (w.frame_buffer_base + 4 * (w.pixels_per_scan_line * rows) ≤ b)

  -- On a screen of four bytes a pixel whose frame buffer fits 32 bits and does not wrap a `Write`
  -- to a pixel of the screen changes no byte outside the frame buffer.
  pub write-Outside :
      (p : Point) (c : Color) (m : Memory) (b : ℕ)
      → OnScreen columns rows p
      → Outside b
      → read8 (write w p c m) b ≡ read8 m b
  unfolding write
  write-Outside p c m b hp out = rw (calc_pixel_addr_lem p hp) (
      write_at_outside w.format w.frame_buffer_base (index w p) (w.pixels_per_scan_line * rows) c m
        b (index-lt p hp) out)
