-- ===== src/Boot/Reached.antt =====
-- main.cpp: MyMain runs its three command lines and reaches its loop.
use seccamp_os.Base.{
  ℕ, ◌≤◌, ◌<◌, ◌≡◌, refl, ap, ◌∙◌, arith, some, Bool, true, false, ◌&&◌, ltb, List, [], ◌∷◌, Memory,
  length,
}
use seccamp_os.Ports.{Ports}
use seccamp_os.Graphics.{GraphicMode}
use seccamp_os.Console.{Screen}
use seccamp_os.Keyboard.{init_pic, init_keyboard}
use seccamp_os.Shell.{
  Command, DebugShell, default_prompt, line_length, max_args, dispatch, type_text,
}
use seccamp_os.Shell
use seccamp_os.Shell.Line.{HoldsLine, NonZero}
use seccamp_os.Shell.Full.{Printable}
use seccamp_os.Shell.Words.{pieces}
use seccamp_os.Shell.Script.{IsCommandLine, AllCommandLines, script, put_all, run_lines, script_lem}
use seccamp_os.Boot.{
  World, Booted, Surroundings, auto_cmd, start_console, console_host, start_shell, start_keyboard,
  my_main,
}

abbrev pub lspci_word : List ℕ
lspci_word = b'l' ∷ b's' ∷ b'p' ∷ b'c' ∷ b'i' ∷ []

abbrev pub device_word : List ℕ
device_word = b'0' ∷ b'0' ∷ b':' ∷ b'0' ∷ b'4' ∷ b'.' ∷ b'0' ∷ b'0' ∷ []

abbrev pub xhci_word : List ℕ
xhci_word = b'x' ∷ b'h' ∷ b'c' ∷ b'i' ∷ []

abbrev pub device_line : List ℕ
device_line = b'l' ∷ b's' ∷ b'p' ∷ b'c' ∷ b'i' ∷ b' ' ∷ device_word

abbrev pub boot_lines : List (List ℕ)
boot_lines = lspci_word ∷ device_line ∷ xhci_word ∷ []

boot_lines-script : script boot_lines ≡ auto_cmd
boot_lines-script = refl

-- No control characters.
abbrev visible : List ℕ → Bool
visible [] = true
visible (ch ∷ chs) = ltb 0x1f ch && visible chs

visible-cons :
    (ch : ℕ) (chs : List ℕ) → visible (ch ∷ chs) ≡ true → (0x1f < ch) × (visible chs ≡ true)
visible-cons ch chs h = ground arith

visible-Printable : (line : List ℕ) → visible line ≡ true → Printable line × NonZero line
visible-Printable [] h = (tt, tt)
visible-Printable (ch ∷ chs) h =
    let (above, rest) = visible-cons ch chs h in
    let (printable, nonzero) = visible-Printable chs rest in
    (
      ((λ e. absurd (omega arith)), (λ e. absurd (omega arith)), printable),
      ((λ e. absurd (omega arith)), nonzero),
    )

visible-IsCommandLine :
    (line : List ℕ)
    → visible line ≡ true
    → 0 < length line
    → length line < line_length
    → length (pieces false line) ≤ max_args
    → IsCommandLine line
visible-IsCommandLine line h some_chars fits few = record {
  printable = (visible-Printable line h).0;
  some_chars = some_chars;
  fits = fits;
  nonzero = (visible-Printable line h).1;
  few = few;
}

boot_lines-AllCommandLines : AllCommandLines boot_lines
boot_lines-AllCommandLines = (
  visible-IsCommandLine lspci_word refl (omega arith) (omega arith) (omega arith),
  (
    visible-IsCommandLine device_line refl (omega arith) (omega arith) (omega arith),
    (visible-IsCommandLine xhci_word refl (omega arith) (omega arith) (omega arith), tt),
  ),
)

module _ (io : Ports) (around : Surroundings (io.State)) (table : List (Command (World (io.State))))
    (stack : ℕ → List ℕ) (sized : (n : ℕ) → length (stack n) ≡ n) where
  open io use {State}

  -- A line is shown, its words go to their command, and the prompt is shown.
  abbrev pub after_line : List ℕ → List (List ℕ) → World State → World State
  after_line line words w =
      let host = console_host io around in
      host.put_str default_prompt
        (dispatch host table words (host.put_char 0x0a (put_all host table stack sized line w)))

  -- The three command lines of `auto_cmd`, one after another.
  abbrev pub after_commands : World State → World State
  after_commands w = after_line xhci_word (xhci_word ∷ []) (
      after_line device_line (lspci_word ∷ device_word ∷ [])
        (after_line lspci_word (lspci_word ∷ []) w))

  started-HoldsLine :
      (storage : List ℕ) (screen : Screen) (s : State)
      → length storage ≡ line_length
      → HoldsLine (start_shell io around storage screen s).0 []
  unfolding start_shell Shell.construct
  started-HoldsLine storage screen s size = record {
    storage = size;
    cursor = refl;
    fits = omega arith;
    text = λ i lt. absurd (omega arith);
  }

  prompt-start :
      (storage : List ℕ) (screen : Screen) (s : State)
      → (start_shell io around storage screen s).0.prompt_str ≡ default_prompt
  unfolding start_shell Shell.construct
  prompt-start storage screen s = refl

  start_keyboard-ready :
      (fuel : ℕ) (shell : DebugShell) (w : World State) (s' : State)
      → init_keyboard io fuel (init_pic io w.1) ≡ some s'
      → start_keyboard io around table stack fuel (shell, w) ≡ Booted.running shell (w.0, s')
  unfolding start_keyboard
  start_keyboard-ready fuel shell w s' ready = rw (start_keyboard, ready) refl

  -- If the pixel format has a writer, the line storage has 512 characters, stack arrays have the
  -- length that is asked for, and the keyboard controller gets ready within the fuel behind the
  -- commands, `MyMain` types the three command lines `lspci`, `lspci 00:04.00` and `xhci`: each
  -- is shown, its words go to their command as soon as it is ended, and the prompt follows, in
  -- this order; then the keyboard is started, and `MyMain` reaches its loop with an empty line.
  pub my_main_lem :
      (fuel : ℕ) (mode : GraphicMode) (storage : List ℕ) (m : Memory) (s s' : State)
      (screen : Screen)
      → length storage ≡ line_length
      → start_console mode m ≡ some screen
      → init_keyboard io fuel
          (init_pic io (after_commands (start_shell io around storage screen s).1).1)
        ≡ some s'
      → (shell : DebugShell) × (my_main io around table stack fuel mode storage m s
          ≡ Booted.running shell
              ((after_commands (start_shell io around storage screen s).1).0, s'))
        × HoldsLine shell []
  unfolding my_main
  my_main_lem fuel mode storage m s s' screen size console ready =
      let started = start_shell io around storage screen s in
      let (shell, typed, empty) =
        script_lem (console_host io around) table stack sized boot_lines started.0 started.1
          boot_lines-AllCommandLines (started-HoldsLine storage screen s size) in
      let commands : type_text (console_host io around) table stack auto_cmd started
          ≡ some (shell, after_commands started.1) =
        typed
        ∙ ap
            (λ p.
              some (
                shell,
                run_lines (console_host io around) table stack sized p boot_lines started.1,
              ))
            (prompt-start storage screen s) in
      (
        shell,
        rw (my_main, console, commands)
            (start_keyboard-ready fuel shell (after_commands started.1) s' ready),
        empty,
      )
