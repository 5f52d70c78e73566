-- ===== src/Command/Entered.antt =====
-- command.cpp, command.hpp: the command table, under the shell. What the shell puts on the console
-- is printed, too.
use seccamp_os.Base.{
  ℕ, ◌<◌, ◌≡◌, ap, ◌∙◌, arith, false, some, List, [], ◌∷◌, ◌++◌, append_assoc, Memory, length,
}
use seccamp_os.Ports.{Ports}
use seccamp_os.Shell.{Host, Command, DebugShell, line_length, dispatch, shell_put_char}
use seccamp_os.Shell.Line.{HoldsLine, NonZero}
use seccamp_os.Shell.Words.{pieces}
use seccamp_os.Shell.Dispatch.{enter_dispatches}
use seccamp_os.Command.{Sscanf, MemoryMap, Descriptor, echo, lspci, mmap}
use seccamp_os.Command.Effects.{Printed, Machine, Outcome, Run, print}
use seccamp_os.Command.Echo.{spaced, printing, printing-append, echo_lem}
use seccamp_os.Command.Usb.{Frame}
use seccamp_os.Command.Usb.Drive.{xhci}

-- A command that is run when what was run before has ended.
abbrev pub lift : {S : Type 0} → Run S (Unit {0}) → Outcome (Machine S) → Outcome (Machine S)
lift f (Outcome.done w) = elim (f w) [
  | Outcome.done (_, w') ↦ Outcome.done w'
  | Outcome.out_of_bounds ↦ Outcome.out_of_bounds
  | Outcome.out_of_fuel ↦ Outcome.out_of_fuel
]
lift f Outcome.out_of_bounds = Outcome.out_of_bounds
lift f Outcome.out_of_fuel = Outcome.out_of_fuel

pub lift_done :
    {S : Type 0} (f : Run S (Unit {0})) (w : Machine S) {w' : Machine S}
    → f w ≡ Outcome.done (tt, w')
    → lift f (Outcome.done w) ≡ Outcome.done w'
lift_done f w e =
    ap
      (λ o. elim o [
        | Outcome.done (_, v) ↦ Outcome.done v
        | Outcome.out_of_bounds ↦ Outcome.out_of_bounds
        | Outcome.out_of_fuel ↦ Outcome.out_of_fuel
      ])
      e

abbrev pub screen : (S : Type 0) → Host
screen S = record {
  World = Outcome (Machine S);
  put_char = λ ch. lift (print (Printed.char ch));
  put_str = λ chars. lift (print (Printed.text chars));
  no_such_command = λ name. lift (print (Printed.no_such_command name));
}

module _ (io : Ports) (work : io.State → Memory → io.State × Memory) (frame : Frame)
    (sscanf : Sscanf) (efi : Descriptor) (param : MemoryMap) (fuel : ℕ) where
  open io use {State}

  -- `Command table[4]`
  unfoldable pub table : List (Command (Outcome (Machine State)))
  table =
      record {
        name = b'e' ∷ b'c' ∷ b'h' ∷ b'o' ∷ [];
        func_ptr = λ argc argv. lift (echo argc argv);
      }
      ∷ record {
        name = b'l' ∷ b's' ∷ b'p' ∷ b'c' ∷ b'i' ∷ [];
        func_ptr = λ argc argv. lift (lspci io sscanf fuel argc argv);
      }
      ∷ record {
        name = b'm' ∷ b'm' ∷ b'a' ∷ b'p' ∷ [];
        func_ptr = λ argc argv. lift (mmap efi param fuel argc argv);
      }
      ∷ record {
        name = b'x' ∷ b'h' ∷ b'c' ∷ b'i' ∷ [];
        func_ptr = λ argc argv. lift (xhci io work frame fuel argc argv);
      }
      ∷ []

  echo-dispatched :
      (args : List (List ℕ)) (w : Machine State)
      → dispatch (screen State) table ((b'e' ∷ b'c' ∷ b'h' ∷ b'o' ∷ []) ∷ args) (Outcome.done w)
        ≡ Outcome.done (printing (spaced args ++ (Printed.char 0x0a ∷ [])) w)
  unfolding dispatch table
  echo-dispatched args w =
      let argv = (b'e' ∷ b'c' ∷ b'h' ∷ b'o' ∷ []) ∷ args in
      lift_done (echo (length argv) argv) w (echo_lem (b'e' ∷ b'c' ∷ b'h' ∷ b'o' ∷ []) args w)

  -- What the shell prints for a line with `echo`, from the line feed to the next prompt.
  abbrev pub echoed : List (List ℕ) → List ℕ → List Printed
  echoed args prompt =
      Printed.char 0x0a ∷ (spaced args ++ (Printed.char 0x0a ∷ Printed.text prompt ∷ []))

  echoed-printed :
      (args : List (List ℕ)) (prompt : List ℕ) (w : Machine State)
      → printing
          (Printed.text prompt ∷ [])
          (printing (spaced args ++ (Printed.char 0x0a ∷ [])) (printing (Printed.char 0x0a ∷ []) w))
        ≡ printing (echoed args prompt) w
  echoed-printed args prompt w =
      let line_end = Printed.char 0x0a ∷ [] in
      ap (printing (Printed.text prompt ∷ []))
        (printing-append line_end (spaced args ++ line_end) w)
      ∙ printing-append (Printed.char 0x0a ∷ (spaced args ++ line_end)) (Printed.text prompt ∷ []) w
      ∙ ap (λ t. printing (Printed.char 0x0a ∷ t) w)
          (append_assoc (spaced args) line_end (Printed.text prompt ∷ []))

  -- If the buffer of the shell holds a line of 1 to 511 characters, none of them NUL, whose first
  -- piece is `echo` and which has fewer than 128 more, a line feed prints a line feed, the other
  -- pieces with a space between each two of them, a line feed and the prompt; behind it the line
  -- is empty.
  pub echo_line :
      (stack : ℕ → List ℕ) (line : List ℕ) (args : List (List ℕ)) (sh : DebugShell)
      (w : Machine State)
      → ((n : ℕ) → length (stack n) ≡ n)
      → HoldsLine sh line
      → length line < line_length
      → 0 < length line
      → NonZero line
      → pieces false line ≡ (b'e' ∷ b'c' ∷ b'h' ∷ b'o' ∷ []) ∷ args
      → length args < 128
      → (sh' : DebugShell) × (shell_put_char (screen State) table stack 0x0a (sh, Outcome.done w)
          ≡ some (sh', Outcome.done (printing (echoed args sh.prompt_str) w)))
        × (sh'.prompt_str ≡ sh.prompt_str)
        × HoldsLine sh' []
  echo_line stack line args sh w sized h room some_chars nz words few =
      let started = printing (Printed.char 0x0a ∷ []) w in
      let prompting : Outcome (Machine State) → Outcome (Machine State) =
        lift (print (Printed.text sh.prompt_str)) in
      let (sh', entered, prompt, holds) =
        enter_dispatches (screen State) table stack line sh (Outcome.done w) sized h room some_chars
          nz (rw words (omega arith)) in
      (
        sh',
        entered
            ∙ ap (λ t. some (sh', t))
                (ap (λ t. prompting (dispatch (screen State) table t (Outcome.done started))) words
                  ∙ ap prompting (echo-dispatched args started)
                  ∙ ap Outcome.done (echoed-printed args sh.prompt_str w)),
        prompt,
        holds,
      )
