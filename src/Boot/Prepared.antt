-- ===== src/Boot/Prepared.antt =====
-- main.cpp: what MyMain has prepared before it starts the shell.
use seccamp_os.Base.{
  ℕ, zero, suc, ◌+◌, ◌*◌, ◌/◌, ◌^◌, ◌≤◌, ◌<◌, ◌≡◌, ◌⊎◌, inr, refl, ap, ◌∙◌, arith, some, Memory,
  read8, u32, u64,
}
use seccamp_os.ErrorCode.{success}
use seccamp_os.Ports.{Ports}
use seccamp_os.Graphics.{
  Point, Format, PixelWriter, GraphicMode, RectSize, point_add, rect_row, rect_rows, draw_rect,
}
use seccamp_os.Graphics.Pixels.{IsScreen, OnScreen, shown, bytes_at, index-lt}
use seccamp_os.Console.{DebugConsole}
use seccamp_os.Console
use seccamp_os.Graphics.Shapes.{draw_rect_lem}
use seccamp_os.DescTable.{DescriptorTableRegister, get_idtr, set_idt_entry, make_idt_attr}
use seccamp_os.DescTable.Print.{decode_gate}
use seccamp_os.DescTable.Gates.{set_idt_entry-decode_gate}
use seccamp_os.DescTable.Bounds.{set_idt_entry_bounds}
use seccamp_os.Boot.{
  choose_writer, background, clear_row, clear_rows, start_console, Surroundings, install_gate,
}

abbrev pub corner : Point
corner = record { x = 0; y = 0 }

module _ (w : PixelWriter) where
  -- The loops of the clearing are those of `DrawRect`.
  clear_row-rect_row :
      (rounds x y : ℕ) (m : Memory)
      → x + rounds ≤ 2 ^ 32
      → y < 2 ^ 32
      → clear_row w rounds x y m ≡ rect_row w corner rounds x y background m
  unfolding clear_row rect_row point_add
  clear_row-rect_row zero x y m hx hy = refl
  clear_row-rect_row (suc rounds) x y m hx hy =
      let ex : u32 (0 + x) ≡ x = omega arith in
      let ey : u32 (0 + y) ≡ y = omega arith in
      rw (ex, ey) (clear_row-rect_row rounds (x + 1) y _ (omega arith) hy)

  clear_rows-rect_rows :
      (columns rounds y : ℕ) (m : Memory)
      → columns ≤ 2 ^ 32
      → y + rounds ≤ 2 ^ 32
      → clear_rows w columns rounds y m ≡ rect_rows w corner rounds columns y background m
  unfolding clear_rows rect_rows
  clear_rows-rect_rows columns zero y m hx hy = refl
  clear_rows-rect_rows columns (suc rounds) y m hx hy =
      rw (clear_row-rect_row columns 0 y m (omega arith) (omega arith))
        (clear_rows-rect_rows columns rounds (y + 1) _ hx (omega arith))

  clear_rows-draw_rect :
      (columns rows : ℕ) (m : Memory)
      → columns ≤ 2 ^ 32
      → rows ≤ 2 ^ 32
      → clear_rows w columns rows 0 m
        ≡ draw_rect w corner (record { width = columns; height = rows }) background m
  unfolding draw_rect
  clear_rows-draw_rect columns rows m hx hy = clear_rows-rect_rows columns rows 0 m hx (omega arith)

  clear_rows_lem :
      (columns rows : ℕ) (m : Memory) (q : Point)
      → columns ≤ 2 ^ 32
      → rows ≤ 2 ^ 32
      → IsScreen w columns rows
      → OnScreen columns rows q
      → shown w q (clear_rows w columns rows 0 m) ≡ (255, 255, 255)
  clear_rows_lem columns rows m q hx hy screen on =
      ap (shown w q) (clear_rows-draw_rect columns rows m hx hy)
      ∙ draw_rect_lem screen corner q (record { width = columns; height = rows }) background m
          (omega arith) (omega arith) on
      ∙ ground arith

bytes_at-same :
    (f : Format) (a : ℕ) (m m' : Memory)
    → ((b : ℕ) → a ≤ b → b < a + 4 → read8 m' b ≡ read8 m b)
    → bytes_at f a m' ≡ bytes_at f a m
bytes_at-same f a m m' same =
    let e₀ = same a (omega arith) (omega arith) in
    let e₁ = same (a + 1) (omega arith) (omega arith) in
    let e₂ = same (a + 2) (omega arith) (omega arith) in by_format f e₀ e₁ e₂
  where
    by_format :
        (f : Format)
        → read8 m' a ≡ read8 m a
        → read8 m' (a + 1) ≡ read8 m (a + 1)
        → read8 m' (a + 2) ≡ read8 m (a + 2)
        → bytes_at f a m' ≡ bytes_at f a m
    by_format Format.red_green_blue e₀ e₁ e₂ = rw (e₀, e₁, e₂) refl
    by_format Format.blue_green_red e₀ e₁ e₂ = rw (e₀, e₁, e₂) refl

-- The entry of the keyboard in the interrupt descriptor table is within its limit, does not wrap,
-- and lies apart from the frame buffer.
pub record HasEntry (idtr : DescriptorTableRegister) (w : PixelWriter) (rows : ℕ) : Type 0 where
  pub word : idtr.limit < 2 ^ 16
  pub within : 16 * 0x21 + 15 ≤ idtr.limit
  pub fits : idtr.base + idtr.limit < 2 ^ 64
  pub apart :
      (idtr.base + 16 * 0x21 + 12 ≤ w.frame_buffer_base)
      ⊎ (w.frame_buffer_base + 4 * (w.pixels_per_scan_line * rows) ≤ idtr.base + 16 * 0x21)

abbrev pub cleared : PixelWriter → GraphicMode → Memory → Memory
cleared w mode m = clear_rows w mode.horizontal_resolution mode.vertical_resolution 0 m

module _ (io : Ports) (around : Surroundings (io.State)) where
  shown-gate :
      (w : PixelWriter) (columns rows : ℕ) (idtr : DescriptorTableRegister) (offset : ℕ)
      (m : Memory) (q : Point)
      → IsScreen w columns rows
      → HasEntry idtr w rows
      → OnScreen columns rows q
      → shown w q (set_idt_entry idtr 0x21 offset (make_idt_attr 1 0 14 0) 0x38 m).1 ≡ shown w q m
  shown-gate w columns rows idtr offset m q screen entry on =
      bytes_at-same w.format (w.frame_buffer_base + 4 * (w.pixels_per_scan_line * q.y + q.x)) m _
        (λ b low high.
          (set_idt_entry_bounds idtr 0x21 offset (make_idt_attr 1 0 14 0) 0x38 b m (omega arith)
            entry.fits (inr (ground (arith, entry.apart, index-lt screen q on)))).1)

  installed :
      (mode : GraphicMode) (w : PixelWriter) (idtr : DescriptorTableRegister) (m : Memory)
      → get_idtr around.sidt (cleared w mode m) around.idtr_buf ≡ idtr
      → install_gate io around (cleared w mode m)
        ≡ set_idt_entry idtr 0x21 around.asm_inthandler21
            (make_idt_attr 1 0 14 0)
            0x38
            (cleared w mode m)
  unfolding install_gate
  installed mode w idtr m table =
      ap
        (λ t.
          set_idt_entry t 0x21 around.asm_inthandler21 (make_idt_attr 1 0 14 0) 0x38
            (cleared w mode m))
        table

  cursor-construct : (w : PixelWriter) (size : RectSize) → (Console.construct w size).cur ≡ corner
  unfolding Console.construct
  cursor-construct w size = refl

  -- If the pixel format has a writer, the frame buffer has four bytes a pixel, fits 32 bits and
  -- does not wrap, and the entry of interrupt 0x21 lies within the limit of the interrupt
  -- descriptor table and apart from the frame buffer, `MyMain` starts a console with its cursor
  -- in the first cell, installs the gate with success, and then the entry reads back as a present
  -- interrupt gate to the handler with selector 0x38, and every pixel is white.
  pub prepared_lem :
      (mode : GraphicMode) (w : PixelWriter) (idtr : DescriptorTableRegister) (m : Memory)
      → choose_writer mode ≡ some w
      → mode.horizontal_resolution < 2 ^ 32
      → mode.vertical_resolution < 2 ^ 32
      → IsScreen w mode.horizontal_resolution mode.vertical_resolution
      → get_idtr around.sidt (cleared w mode m) around.idtr_buf ≡ idtr
      → HasEntry idtr w mode.vertical_resolution
      → around.asm_inthandler21 < 2 ^ 64
      → (console : DebugConsole) × (start_console mode m ≡ some (console, cleared w mode m))
        × (console.cur ≡ corner)
        × let (err, m') = install_gate io around (cleared w mode m) in
          (err ≡ success)
          × (decode_gate m' (u64 (idtr.base + 0x21 * 2 ^ 4)) ≡ record {
            selector = 0x38;
            offset = around.asm_inthandler21;
            attr_p = 1;
            attr_dpl = 0;
            attr_d = 1;
            attr_type = 14;
            attr_ist = 0;
          })
          × ((q : Point)
              → OnScreen mode.horizontal_resolution mode.vertical_resolution q
              → shown w q m' ≡ (255, 255, 255))
  unfolding start_console
  prepared_lem mode w idtr m chosen wide high screen table entry address =
      let size : RectSize = record {
        width = mode.horizontal_resolution / 8;
        height = mode.vertical_resolution / 16;
      } in
      let (accepted, gate) =
        set_idt_entry-decode_gate idtr 0x21 around.asm_inthandler21 1 0 14 0 0x38 (cleared w mode m)
          entry.word entry.within address (omega arith) (omega arith) (omega arith) (omega arith)
          (omega arith) in
      (
        Console.construct w size,
        rw (start_console, chosen) refl,
        cursor-construct w size,
        rw (installed mode w idtr m table) (
          accepted,
          gate,
          λ q on.
              shown-gate w mode.horizontal_resolution mode.vertical_resolution idtr
                around.asm_inthandler21 (cleared w mode m) q screen entry on
              ∙ clear_rows_lem w mode.horizontal_resolution mode.vertical_resolution m q
                  (omega arith) (omega arith) screen on,
        ),
      )
