-- ===== src/Lib.antt =====
-- Verification of seccamp-os, a small operating system kernel in C++.
--
-- The kernel starts in MyMain (main.cpp): it makes a pixel writer for the frame buffer, a console on
-- it and a shell on the console, enters the keyboard handler into the IDT, runs a few commands, and
-- then loops over the keys that the interrupt handler has put into a queue under a spin lock. The
-- commands scan the PCI buses and drive a USB controller.
--
-- Code is translated into functions on explicit state. Integers are natural numbers, cut to their
-- width where C++ cuts them; an `int` is its 32-bit pattern. Memory is a function from addresses to
-- bytes. Ports are a parameter: a state with what each access returns and leaves.
--
--   Base           numbers, words, bits, bytes of memory, lists, state passing
--   ErrorCode      errorcode.hpp
--   Bitutil        bitutil.hpp; Laws: what the functions compute
--   Register       register.hpp
--   Queue          queue.hpp (ArrayQueue: construct, push, pop, count, front). Valid is the
--                  invariant, Fifo the abstract queue, Refine relates the two
--   Mutex          mutex.hpp (SpinLockMutex, LockGuard) and the two atomic accesses of asmfunc.s.
--                  Threads is `incrementer` of test/test_mutex.cpp as a step relation: any number of
--                  threads, interleaved at every access to shared memory
--   DescTable      desctable.hpp, desctable.cpp; Print is print_desc_table of main.cpp without its
--                  formatting
--   Ports          what asmfunc.s reaches through `in` and `out`
--   Keyboard       main.cpp: init_pic, init_keyboard, Inthandler21, the key tables (Tables), the
--                  handling of a scan code (Decode), and the loop of MyMain (Loop) as one step for each
--                  access to the shared globals, with interrupts between any two steps on the one
--                  processor. Abstract is the keyboard without array and flag
--   Graphics       graphics.hpp, graphics.cpp
--   Console        DebugConsole of debug_console.cpp, which draws with Graphics
--   Shell          DebugShell of debug_console.cpp and the command table of command.hpp; the console
--                  and the commands are a parameter. Words is the splitting of a line by Exec,
--                  Dispatch goes from a typed line to the command, and Script has several lines
--   Pci            pci.hpp, pci.cpp: addresses and data ports; Device has the base address registers
--                  and capabilities; Scan has BusScanner and ScanAllBus, Scan/Found reads the same tree
--                  off the registers without ports
--   Libc           memcpy and memset of libc/func.c
--   EventRing      xhci_er.hpp: the event ring's manager, over memory that holds the registers, the
--                  segment table and the TRBs; Walk has the places on the ring, Start and Cleared
--                  what Initialize leaves
--   Xhci           xhci.hpp, xhci.cpp: the controller's registers and register arrays; Contexts has
--                  the bit fields of xhci.hpp and xhci_trb.hpp
--   Command        command.cpp: Echo, Lspci and Mmap. Effects has what a command works on and how it
--                  can end: what it hands to the output functions, a write outside an array, or fuel
--                  that does not last. Prints are the rules for parts of a command that only print,
--                  Report is what Lspci prints for a device, read off the registers without ports.
--                  Usb is Xhci: the controller may change the memory before every access; Usb/Quiet
--                  and Usb/Located have one that does nothing, Usb/Answered and Usb/Served one that
--                  answers. Entered is the command table under the shell
--   Boot           main.cpp: MyMain before its loop, and write; Reached has its three commands
--   Tests          the theorems at concrete inputs
--
-- Loops with a known number of rounds are recursion on the rounds left. Fuel is used where the code
-- has no bound of its own: `Lock` spins (one round is enough for a free mutex), the keyboard
-- controller is waited for, the scan of buses nests as deep as bridges do (256 levels are enough when
-- bridges lead to greater bus numbers), a line is split into words in len + 2 rounds, which are
-- enough for any line, Mmap steps through the memory map (one round more than there are descriptors
-- is enough), Lspci follows the capability list of a device (one round more than it has capabilities
-- is enough), and Xhci waits for its controller. The loop of Xhci over the endpoints has 32 rounds,
-- which are enough since the number of entries has five bits.
--
-- Hypotheses about what is not in the repository: `Mechanism` of Pci/Laws is the PCI configuration
-- mechanism (an address latch and a data port), `IsBar32` of Pci/Device/Bars and `IsBar64` of
-- Pci/Device/WideBars base address registers of the PCI specification, `Answers` of
-- Command/Usb/Answered a controller that sets CRR and posts an event. All are met at the registers of
-- Tests. Parameters without hypotheses are sscanf, the layout of EFI_MEMORY_DESCRIPTOR, sidt and
-- sgdt, the codes EBADF and EINVAL, what printf shows, and what the xHCI controller does to the
-- memory (`work` of Command/Usb).
--
-- Not modelled: the formatting of printf, which belongs to the C library; the stubs of libc/func.c and
-- memory.cpp that return constants; the ELF structures, which no code of the kernel uses; the code
-- of command.cpp that is commented out. Under MyMain and under the shell alone the commands are a
-- parameter, since what printf makes of their output is not modelled; Command has the commands
-- themselves.
pub mod Base
pub mod ErrorCode
pub mod Bitutil
pub mod Register
pub mod Queue
pub mod Mutex
pub mod DescTable
pub mod Ports
pub mod Keyboard
pub mod Graphics
pub mod Command
pub mod Console
pub mod Shell
pub mod Pci
pub mod Libc
pub mod EventRing
pub mod Xhci
pub mod Boot
pub mod Tests
