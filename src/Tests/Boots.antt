-- ===== src/Tests/Boots.antt =====
-- main.cpp before its loop, and xhci.cpp, at concrete registers and a screen of 16 by 20 pixels.
use seccamp_os.Base.{
  ℕ, ◌+◌, ◌≡◌, inl, refl, arith, some, [], ◌∷◌, Memory, length, replicate, length-replicate, write8,
  ◌==◌, if◌then◌else◌,
}
use seccamp_os.ErrorCode.{success}
use seccamp_os.Ports.{Ports}
use seccamp_os.Graphics.{Point, Format, PixelWriter, GraphicMode, GraphicPixelFormat, pixel_writer}
use seccamp_os.Graphics
use seccamp_os.Graphics.Pixels.{IsScreen, OnScreen, shown}
use seccamp_os.Console.{DebugConsole}
use seccamp_os.Console
use seccamp_os.DescTable.{DescriptorTableRegister, get_idtr, make_dtr}
use seccamp_os.Bitutil.{read_by_byte, read_loop}
use seccamp_os.DescTable.Print.{decode_gate}
use seccamp_os.Boot.{
  World, Booted, choose_writer, start_console, start_shell, my_main, Surroundings, install_gate,
  Output,
}
use seccamp_os.Boot.Reached.{after_commands, my_main_lem}
use seccamp_os.Shell.{DebugShell}
use seccamp_os.Shell.Line.{HoldsLine}
use seccamp_os.Keyboard.{init_keyboard, init_pic, wait_kbc_sendready}
use seccamp_os.Boot
use seccamp_os.Boot.Prepared.{corner, cleared, HasEntry, prepared_lem}
use seccamp_os.Boot.Write.{Stands, write-put_str}

abbrev unconnected : Ports
unconnected = record {
  State = ℕ;
  out8 = λ port v s. s;
  in8 = λ port s. (0, s);
  out32 = λ port v s. s;
  in32 = λ port s. (0, s);
}

abbrev mode : GraphicMode
mode = record {
  frame_buffer_base = 0x80000000;
  horizontal_resolution = 16;
  vertical_resolution = 20;
  pixel_format = GraphicPixelFormat.blue_green_red_reserved;
  pixels_per_scan_line = 32;
}

abbrev writer : PixelWriter
writer = record {
  format = Format.blue_green_red;
  frame_buffer_base = 0x80000000;
  pixels_per_scan_line = 32;
  bytes_per_pixel = 4;
}

writer-IsScreen : IsScreen writer 16 20
writer-IsScreen = record {
  pixel_size = refl;
  wide = omega arith;
  fits = omega arith;
  below_top = omega arith;
}

-- `sidt` stores a limit of 0x2ff and a base of 0x10000.
abbrev stores_idtr : Memory → ℕ → Memory
stores_idtr m a b =
    if b == a then 0xff else (if b == a + 1 then 2 else (if b == a + 4 then 1 else 0))

abbrev around : Surroundings ℕ
around = record {
  sidt = stores_idtr;
  idtr_buf = 0x7000;
  font = 0x9000;
  asm_inthandler21 = 0x123456789abc;
  no_such_command = λ name w. w;
  set_idt_entry_failed = λ err w. w;
}

abbrev idtr : DescriptorTableRegister
idtr = record { limit = 0x2ff; base = 0x10000 }

idtr-HasEntry : HasEntry idtr writer 20
idtr-HasEntry = record {
  word = omega arith;
  within = omega arith;
  fits = omega arith;
  apart = inl (omega arith);
}

loads : get_idtr stores_idtr (cleared writer mode (λ _. 0)) 0x7000 ≡ idtr
unfolding get_idtr make_dtr read_by_byte read_loop
loads = refl

prepared_lem_example :
    (c : DebugConsole) × (start_console mode (λ _. 0) ≡ some (c, cleared writer mode (λ _. 0)))
    × (c.cur ≡ corner)
    × let (err, m') = install_gate unconnected around (cleared writer mode (λ _. 0)) in
      (err ≡ success)
      × (decode_gate m' 0x10210 ≡ record {
        selector = 0x38;
        offset = 0x123456789abc;
        attr_p = 1;
        attr_dpl = 0;
        attr_d = 1;
        attr_type = 14;
        attr_ist = 0;
      })
      × ((q : Point) → OnScreen 16 20 q → shown writer q m' ≡ (255, 255, 255))
unfolding choose_writer pixel_writer
prepared_lem_example =
    prepared_lem unconnected around mode writer idtr (λ _. 0) refl (omega arith) (omega arith)
      writer-IsScreen loads idtr-HasEntry (omega arith)

abbrev console : DebugConsole
console = record {
  writer = writer;
  size = record { width = 2; height = 1 };
  cur = record { x = 0; y = 0 };
}

abbrev output : Output
output = record { errno = 0; default_debug_console = some console; memory = λ a. a }

-- A line feed and the character 11, at 10 in a memory that counts.
stands : Stands 0x9000 (0x0a ∷ 0x0b ∷ []) 0x0a (console, λ a. a)
unfolding Console.put_char Console.erase_cursor Graphics.draw_rect Graphics.rect_rows
    Graphics.rect_row Graphics.write write8 Graphics.calc_pixel_addr Graphics.point_add
stands = (refl, (refl, tt))

write-put_str_example :
    let (console', m) = Console.put_str 0x9000 (0x0a ∷ 0x0b ∷ []) (console, λ a. a) in
    Boot.write 9 22 0x9000 1 0x0a 2 output
    ≡ (2, record output { default_debug_console = some console'; memory = m })
write-put_str_example =
    write-put_str 0x9000 9 22 (0x0a ∷ 0x0b ∷ []) 0x0a output console (omega arith) refl stands

-- The constructor leaves the cursor in the first cell, on a grid of 2 by 1.
starts : start_console mode (λ _. 0) ≡ some (console, cleared writer mode (λ _. 0))
unfolding start_console choose_writer pixel_writer Console.construct
starts = refl

sized : (n : ℕ) → length (replicate {A = ℕ} n 7) ≡ n
sized n = length-replicate n 7

abbrev started : DebugShell × World ℕ
started = start_shell unconnected around (replicate 512 0) (console, cleared writer mode (λ _. 0)) 0

ready : (s : ℕ) → init_keyboard unconnected 1 (init_pic unconnected s) ≡ some s
unfolding init_keyboard wait_kbc_sendready init_pic
ready s = refl

-- The keyboard controller is ready at once, and no command is in the table.
my_main_lem_example :
    (shell : DebugShell) × (my_main unconnected around []
        (λ n. replicate n 7)
        1
        mode
        (replicate 512 0)
        (λ _. 0)
        0
      ≡ Booted.running shell (
        (after_commands unconnected around [] (λ n. replicate n 7) sized started.1).0,
        (after_commands unconnected around [] (λ n. replicate n 7) sized started.1).1,
      ))
    × HoldsLine shell []
my_main_lem_example =
    my_main_lem unconnected around [] (λ n. replicate n 7) sized 1 mode (replicate 512 0) (λ _. 0) 0
      (after_commands unconnected around [] (λ n. replicate n 7) sized started.1).1
      (console, cleared writer mode (λ _. 0)) (length-replicate {A = ℕ} 512 0) starts
      (ready (after_commands unconnected around [] (λ n. replicate n 7) sized started.1).1)
