-- ===== src/Tests/Commands.antt =====
-- command.cpp without PCI ports: Echo under the shell, Mmap, and parts of Xhci.
use seccamp_os.Base.{
  inl, read8, ◌==◌, if◌then◌else◌, ℕ, zero, suc, ◌+◌, ◌≡◌, ◌<◌, refl, arith, some, none, List, [],
  ◌∷◌, ◌++◌, Memory, read32, replicate, length-replicate, get_elem?,
}
use seccamp_os.Ports.{Ports}
use seccamp_os.Shell.{Host, Command, DebugShell, default_prompt, dispatch, shell_put_char}
use seccamp_os.Shell.Line.{HoldsLine}
use seccamp_os.Shell.Dispatch.{enter_dispatches}
use seccamp_os.Xhci.Contexts.{trb, configure_endpoint_command, command_dwords, slot_context}
use seccamp_os.Command.Usb.PortStatus.{report_ports_lem}
use seccamp_os.Command.Usb.Drive.{report_ports}
use seccamp_os.Command.{MemoryMap, Descriptor, mmap}
use seccamp_os.Command.Effects.{Printed, UsbLine, Machine, Outcome}
use seccamp_os.Command.Echo.{printing}
use seccamp_os.Command.Mmap.{mmap_lem}
use seccamp_os.Command.Entered.{screen, table, echo_line}
use seccamp_os.Command.Usb.{Frame, dwords_at, put_command, command_for, fill_input_context}
use seccamp_os.Command.Usb.Buffers.{put_command_lem, fill_input_context_lem}
use seccamp_os.Xhci

-- Ports without devices.
abbrev unconnected : Ports
unconnected = record {
  State = ℕ;
  out8 = λ port v s. s;
  in8 = λ port s. (0, s);
  out32 = λ port v s. s;
  in32 = λ port s. (0, s);
}

abbrev machine : Memory → Machine ℕ
machine m = record {
  devices = record { pci_devices = []; num_pci_devices = 0 };
  ports = 0;
  memory = m;
  printed = [];
}

abbrev frame : Frame
frame = record { cr_buf = 0x4000; input_context = 0x5000; trb = 0x6000 }

abbrev efi : Descriptor
efi = record {
  physical_start = λ m a. read32 m (a + 8);
  number_of_pages = λ m a. read32 m (a + 24);
}

-- 100 bytes of descriptors of 48 bytes.
abbrev map_of_100 : MemoryMap
map_of_100 = record { memory_map = 0x1000; memory_map_size = 100; memory_descriptor_size = 48 }

mmap_lem_example :
    mmap efi map_of_100 4 1 [] (machine (λ a. a))
    ≡ Outcome.done (
      tt,
      printing
          (Printed.pages_line (read32 (λ a. a) 0x1008) (read32 (λ a. a) 0x1018)
            ∷ Printed.pages_line (read32 (λ a. a) 0x1038) (read32 (λ a. a) 0x1048)
            ∷ Printed.pages_line (read32 (λ a. a) 0x1068) (read32 (λ a. a) 0x1078)
            ∷ [])
          (machine (λ a. a)),
    )
mmap_lem_example =
    mmap_lem efi map_of_100 4 1 3 [] (machine (λ a. a)) (omega arith) (omega arith) (omega arith)
      (omega arith)

-- "echo a" in the buffer of the shell.
abbrev echo_a : List ℕ
echo_a = b'e' ∷ b'c' ∷ b'h' ∷ b'o' ∷ b' ' ∷ b'a' ∷ []

abbrev shell : DebugShell
shell = record { cur = 6; buf = echo_a ++ replicate 506 7; prompt_str = default_prompt }

echo_a-text : (i : ℕ) → i < 6 → get_elem? (shell.buf) i ≡ get_elem? echo_a i
echo_a-text zero h = refl
echo_a-text (suc zero) h = refl
echo_a-text (suc (suc zero)) h = refl
echo_a-text (suc (suc (suc zero))) h = refl
echo_a-text (suc (suc (suc (suc zero)))) h = refl
echo_a-text (suc (suc (suc (suc (suc zero))))) h = refl
echo_a-text (suc (suc (suc (suc (suc (suc i)))))) h = absurd (omega arith)

shell-HoldsLine : HoldsLine shell echo_a
shell-HoldsLine = record {
  storage = omega (arith, length-replicate {A = ℕ} 506 7);
  cursor = refl;
  fits = omega arith;
  text = echo_a-text;
}

echo_line_example :
    (sh' : DebugShell) × (shell_put_char
        (screen ℕ)
        (table unconnected (λ s m. (s, m)) frame (λ _. none) efi map_of_100 2)
        (λ n. replicate n 7)
        0x0a
        (shell, Outcome.done (machine (λ _. 0)))
      ≡ some (
        sh',
        Outcome.done (
            printing
              (Printed.char 0x0a
                ∷ Printed.text (b'a' ∷ [])
                ∷ Printed.char 0x0a
                ∷ Printed.text default_prompt
                ∷ [])
              (machine (λ _. 0))),
      ))
    × (sh'.prompt_str ≡ default_prompt)
    × HoldsLine sh' []
echo_line_example =
    echo_line unconnected (λ s m. (s, m)) frame (λ _. none) efi map_of_100 2 (λ n. replicate n 7)
      echo_a ((b'a' ∷ []) ∷ []) shell (machine (λ _. 0)) (λ n. length-replicate {A = ℕ} n 7)
      shell-HoldsLine (omega arith) (omega arith)
      (omega arith, (omega arith, (omega arith, (omega arith, (omega arith, (omega arith, tt))))))
      refl (omega arith)

-- A console that lists what it is given, last first, and a command that counts its arguments.
abbrev listing : Host
listing = record {
  World = List ℕ;
  put_char = λ ch w. ch ∷ w;
  put_str = λ chs w. chs ++ w;
  no_such_command = λ name w. name ++ w;
}

abbrev counting : Command (List ℕ)
counting = record { name = b'e' ∷ b'c' ∷ b'h' ∷ b'o' ∷ []; func_ptr = λ argc args w. argc ∷ w }

enter_dispatches_example :
    (sh' : DebugShell) × (shell_put_char listing
        (counting ∷ [])
        (λ n. replicate n 7)
        0x0a
        (shell, [])
      ≡ some (sh', default_prompt ++ (2 ∷ 0x0a ∷ [])))
    × (sh'.prompt_str ≡ default_prompt)
    × HoldsLine sh' []
unfolding dispatch
enter_dispatches_example =
    enter_dispatches listing (counting ∷ []) (λ n. replicate n 7) echo_a shell []
      (λ n. length-replicate {A = ℕ} n 7) shell-HoldsLine (omega arith) (omega arith)
      (omega arith, (omega arith, (omega arith, (omega arith, (omega arith, (omega arith, tt))))))
      (omega arith)

put_command_lem_example :
    let d =
      dwords_at (put_command 0x4000 (command_dwords (command_for 0x5000 3)) (λ _. 0xff)) 0x4000 in
    (configure_endpoint_command d ≡ command_for 0x5000 3)
    × ((trb d).trb_type ≡ 12)
    × ((trb d).cycle_bit ≡ 1)
    × ((trb d).parameter ≡ 0x5000)
put_command_lem_example =
    put_command_lem 0x4000 0x5000 3 (λ _. 0xff) (omega arith) (omega arith) (omega arith)
      (omega arith)

-- The dwords that test/test_xhci.cpp expects, and the fields that it assigns.
abbrev expected : ℕ → ℕ
expected i =
    if i == 0 then 0xb00deadb else (if i == 1 then 0 else (if i == 2 then 0x56800000 else 0xa5))

expected_fields : slot_context expected ≡ record {
  route_string = 0xdeadb;
  speed = 0;
  mtt = 0;
  hub = 0;
  context_entries = 0x16;
  max_exit_latency = 0;
  root_hub_port_num = 0;
  num_ports = 0;
  tt_hub_slot_id = 0;
  tt_port_num = 0;
  ttt = 0;
  interrupter_target = 0x15a;
  usb_device_address = 0xa5;
  slot_state = 0;
}
unfolding slot_context
expected_fields = refl

-- The sixth byte of the endpoint context, in a memory that counts.
fill_input_context_lem_example : read8 (fill_input_context 0x5000 0x8000 (λ a. a)) 0x5065 ≡ 0x45
fill_input_context_lem_example =
    fill_input_context_lem 0x5000 0x8000 0x5065 (λ a. a) (inl (omega arith))

-- Two ports. A device is there at the first, and the controller sets CSC of the second while the
-- first is printed.
abbrev ports_at_0x540 : Memory
ports_at_0x540 = λ a. if a == 0x107 then 2 else (if a == 0x540 then 1 else 0)

abbrev connecting : ℕ → Memory → ℕ × Memory
connecting s m = (s + 1, if s == 1 then (λ a. if a == 0x552 then 2 else m a) else m)

abbrev xhc : Xhci.Controller
xhc = record { mmio_base = 0x100; cap = 0x100; op = 0x140 }

report_ports_lem_example :
    report_ports unconnected connecting frame xhc (machine ports_at_0x540)
    ≡ Outcome.done (
      tt,
      record (machine ports_at_0x540) {
        ports = 3;
        memory = λ a. if a == 0x552 then 2 else ports_at_0x540 a;
        printed =
            Printed.usb_line UsbLine.port_status []
            ∷ Printed.char b'1'
            ∷ Printed.char b'2'
            ∷ Printed.char 0x0a
            ∷ [];
      },
    )
unfolding read32
report_ports_lem_example =
    report_ports_lem unconnected connecting frame xhc (machine ports_at_0x540)
