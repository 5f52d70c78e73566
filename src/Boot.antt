-- ===== src/Boot.antt =====
-- main.cpp: `MyMain` up to its loop, and `write`.
pub mod Prepared
pub mod Reached
pub mod Write
use seccamp_os.Base.{
  ℕ, zero, suc, ◌+◌, ◌-◌, ◌/◌, ◌^◌, Bool, Option, none, some, List, [], ◌∷◌, Memory, read8, ◌==◌,
  ltb, if◌then◌else◌, u32,
}
use seccamp_os.ErrorCode.{Error, is_error}
use seccamp_os.Ports.{Ports}
use seccamp_os.Graphics.{
  Point, Color, Format, PixelWriter, GraphicMode, GraphicPixelFormat, pixel_writer,
}
use seccamp_os.Graphics
use seccamp_os.Console.{DebugConsole, Screen}
use seccamp_os.Console
use seccamp_os.DescTable.{get_idtr, make_idt_attr, set_idt_entry}
use seccamp_os.Shell.{Host, Command, DebugShell, type_text}
use seccamp_os.Shell
use seccamp_os.Keyboard.{init_pic, init_keyboard}

-- The `switch` over the pixel format.
unfoldable pub choose_writer : GraphicMode → Option PixelWriter
choose_writer mode = elim mode.pixel_format [
  | GraphicPixelFormat.red_green_blue_reserved ↦ some (pixel_writer Format.red_green_blue mode)
  | GraphicPixelFormat.blue_green_red_reserved ↦ some (pixel_writer Format.blue_green_red mode)
  | _ ↦ none
]

abbrev pub background : Color
background = record { r = 255; g = 255; b = 255; a = 0 }

module _ (w : PixelWriter) where
  -- The loop over `x` of the clearing of the screen.
  unfoldable pub clear_row : ℕ → ℕ → ℕ → Memory → Memory
  clear_row zero x y m = m
  clear_row (suc rounds) x y m =
      clear_row rounds (x + 1) y (Graphics.write w (record { x = x; y = y }) background m)

  -- The loop over `y`, for lines of `columns` pixels.
  unfoldable pub clear_rows : ℕ → ℕ → ℕ → Memory → Memory
  unfolding clear_row
  clear_rows columns zero y m = m
  clear_rows columns (suc rounds) y m = clear_rows columns rounds (y + 1) (clear_row columns 0 y m)

-- The console on a cleared screen; `none` is the return without a pixel writer.
unfoldable pub start_console : GraphicMode → Memory → Option Screen
unfolding choose_writer clear_rows
start_console mode m = elim (choose_writer mode) [
  | none ↦ none
  | some writer ↦ some (
    Console.construct writer
        (record { width = mode.horizontal_resolution / 8; height = mode.vertical_resolution / 16 }),
    clear_rows writer mode.horizontal_resolution mode.vertical_resolution 0 m,
  )
]

-- `const char* auto_cmd`
abbrev pub auto_cmd : List ℕ
auto_cmd =
    b'l' ∷ b's' ∷ b'p' ∷ b'c' ∷ b'i' ∷ 0x0a ∷ b'l' ∷ b's' ∷ b'p' ∷ b'c' ∷ b'i' ∷ b' ' ∷ b'0' ∷ b'0'
    ∷ b':' ∷ b'0' ∷ b'4' ∷ b'.' ∷ b'0' ∷ b'0' ∷ 0x0a ∷ b'x' ∷ b'h' ∷ b'c' ∷ b'i' ∷ 0x0a ∷ []

-- The screen with its console, and what lies behind the ports.
abbrev pub World : Type 0 → Type 0
World S = Screen × S

-- Where `MyMain` gets to.
pub data Booted (W : Type 0) : Type 0 where
  -- It returns 0.
  no_writer : Booted W
  -- A command line goes outside an array.
  out_of_bounds : Booted W
  keyboard_not_ready : Booted W
  -- It enters its loop.
  running : (shell : DebugShell) (world : W) → Booted W

-- What lies outside the repository, and where the build puts things: `sidt`, the buffer for it, the
-- font, the entry point `AsmInthandler21`, and what `printf` shows.
pub record Surroundings (S : Type 0) : Type 0 where
  pub sidt : Memory → ℕ → Memory
  pub idtr_buf : ℕ
  pub font : ℕ
  pub asm_inthandler21 : ℕ
  pub no_such_command : List ℕ → World S → World S
  -- `printf("SetIDTEntry: %d\n", err)`
  pub set_idt_entry_failed : Error → World S → World S

module _ (io : Ports) (around : Surroundings (io.State)) where
  open io use {State}

  -- The gate of the keyboard interrupt.
  unfoldable pub install_gate : Memory → Error × Memory
  install_gate m =
      set_idt_entry (get_idtr around.sidt m around.idtr_buf) 0x21 around.asm_inthandler21
        (make_idt_attr 1 0 14 0) 0x38 m

  -- The console below the shell.
  abbrev pub console_host : Host
  console_host = record {
    World = World State;
    put_char = λ ch (screen, s). (Console.put_char around.font ch screen, s);
    put_str = λ chars (screen, s). (Console.put_str around.font chars screen, s);
    no_such_command = around.no_such_command;
  }

  -- From the interrupt descriptor table to the shell.
  unfoldable pub start_shell : List ℕ → Screen → State → DebugShell × World State
  unfolding install_gate
  start_shell storage (console, m) s =
      let (err, m') = install_gate m in
      Shell.construct console_host storage (
        if is_error err
        then around.set_idt_entry_failed err ((console, m'), s)
        else ((console, m'), s))

  module _ (table : List (Command (World State))) (stack : ℕ → List ℕ) where
    -- The two initialisations before the loop.
    unfoldable pub start_keyboard : ℕ → DebugShell × World State → Booted (World State)
    start_keyboard fuel (shell, (screen, s)) = elim (init_keyboard io fuel (init_pic io s)) [
      | none ↦ Booted.keyboard_not_ready
      | some s' ↦ Booted.running shell (screen, s')
    ]

    unfoldable pub my_main : ℕ → GraphicMode → List ℕ → Memory → State → Booted (World State)
    unfolding start_console start_shell start_keyboard
    my_main fuel mode storage m s = elim (start_console mode m) [
      | none ↦ Booted.no_writer
      | some screen ↦
          elim (type_text console_host table stack auto_cmd (start_shell storage screen s)) [
            | none ↦ Booted.out_of_bounds
            | some started ↦ start_keyboard fuel started
          ]
    ]

-- The globals that `write` works on.
pub record Output : Type 0 where
  pub errno : ℕ
  pub default_debug_console : Option DebugConsole
  pub memory : Memory

-- The loop of `write` from `ptr` on.
unfoldable pub write_chars : ℕ → ℕ → ℕ → Screen → Screen
write_chars font zero ptr screen = screen
write_chars font (suc rounds) ptr (console, m) =
    write_chars font rounds (ptr + 1) (Console.put_char font (read8 m ptr) (console, m))

-- `write` with the codes `EBADF` and `EINVAL` of the C library. An `int` is its 32-bit pattern, so
-- that a `len` with the top bit is negative.
unfoldable pub write : ℕ → ℕ → ℕ → ℕ → ℕ → ℕ → Output → ℕ × Output
unfolding write_chars
write ebadf einval font file ptr len out =
    if file == 1
    then (elim out.default_debug_console [
      | none ↦ (2 ^ 32 - 1, record out { errno = einval })
      | some console ↦
          let (console', m) =
            write_chars font (if ltb len (2 ^ 31) then len else 0) ptr (console, out.memory) in
          (len, record out { default_debug_console = some console'; memory = m })
    ])
    else (2 ^ 32 - 1, record out { errno = ebadf })
