-- ===== src/Command/Usb/Buffers.antt =====
-- command.cpp: what Xhci puts into memory for the controller, and Xhci without a controller.
use seccamp_os.Base.{
  ℕ, zero, suc, ◌+◌, ◌*◌, ◌%◌, ◌^◌, ◌<◌, ◌≡◌, ◌≢◌, inl, refl, ap, ◌∙◌, arith, false, List, [], ◌∷◌,
  Memory, ◌-◌, ◌≤◌, ◌⊎◌, inr, ◌==◌, if◌then◌else◌, Bool-cases, read8, read32, write32,
  read32-write32, read32-write32_away, u64,
}
use seccamp_os.Ports.{Ports}
use seccamp_os.Libc.{memset}
use seccamp_os.Libc.Laws.{within, memset_lem, memcpy_lem}
use seccamp_os.Xhci.Contexts.{
  Dwords, trb, configure_endpoint_command, ConfigureEndpointCommandTrb, command_dwords,
}
use seccamp_os.Xhci.Fields.{command_round_trip}
use seccamp_os.Command.{device_at, find_devices}
use seccamp_os.Command.Effects.{Printed, UsbLine, Machine, Outcome, bind_done}
use seccamp_os.Command.Echo.{printing}
use seccamp_os.Command.Search.{find_index-none, find_devices-again}
use seccamp_os.Command.Usb.{Frame, is_xhci, dwords_at, put_command, command_for, fill_input_context}
use seccamp_os.Command.Usb.Drive.{xhci, drive_found}

-- The four dwords read back.
put_command-dwords :
    (p : ℕ) (d : Dwords) (m : Memory)
    → (read32 (put_command p d m) p ≡ d 0 % 2 ^ 32)
      × (read32 (put_command p d m) (p + 4) ≡ d 1 % 2 ^ 32)
      × (read32 (put_command p d m) (p + 8) ≡ d 2 % 2 ^ 32)
      × (read32 (put_command p d m) (p + 12) ≡ d 3 % 2 ^ 32)
unfolding put_command
put_command-dwords p d m =
    let m₁ = write32 m p (d 0) in
    let m₂ = write32 m₁ (p + 4) (d 1) in
    let m₃ = write32 m₂ (p + 8) (d 2) in
    (
      read32-write32_away m₃ (p + 12) (d 3) p (inl (omega arith))
          ∙ read32-write32_away m₂ (p + 8) (d 2) p (inl (omega arith))
          ∙ read32-write32_away m₁ (p + 4) (d 1) p (inl (omega arith))
          ∙ read32-write32 m p (d 0),
      read32-write32_away m₃ (p + 12) (d 3) (p + 4) (inl (omega arith))
          ∙ read32-write32_away m₂ (p + 8) (d 2) (p + 4) (inl (omega arith))
          ∙ read32-write32 m₁ (p + 4) (d 1),
      read32-write32_away m₃ (p + 12) (d 3) (p + 8) (inl (omega arith))
          ∙ read32-write32 m₂ (p + 8) (d 2),
      read32-write32 m₃ (p + 12) (d 3),
    )

-- Each dword of a command has 32 bits.
command_dwords-lt : (c : ConfigureEndpointCommandTrb) (i : ℕ) → command_dwords c i < 2 ^ 32
unfolding command_dwords
command_dwords-lt c zero = omega arith
command_dwords-lt c (suc zero) = omega arith
command_dwords-lt c (suc (suc zero)) = omega arith
command_dwords-lt c (suc (suc (suc i))) = omega arith

put_command-decoded :
    (p : ℕ) (c : ConfigureEndpointCommandTrb) (m : Memory)
    → p + 16 < 2 ^ 64
    → (configure_endpoint_command (dwords_at (put_command p (command_dwords c) m) p)
        ≡ configure_endpoint_command (command_dwords c))
      × (trb (dwords_at (put_command p (command_dwords c) m) p) ≡ trb (command_dwords c))
unfolding configure_endpoint_command trb
put_command-decoded p c m fits =
    let (e₀, e₁, e₂, e₃) = put_command-dwords p (command_dwords c) m in
    let a₀ : u64 (p + 4 * 0) ≡ p = omega arith in
    let a₁ : u64 (p + 4 * 1) ≡ p + 4 = omega arith in
    let a₂ : u64 (p + 4 * 2) ≡ p + 8 = omega arith in
    let a₃ : u64 (p + 4 * 3) ≡ p + 12 = omega arith in
    let b₀ : command_dwords c 0 % 2 ^ 32 ≡ command_dwords c 0 =
      omega (arith, command_dwords-lt c 0) in
    let b₁ : command_dwords c 1 % 2 ^ 32 ≡ command_dwords c 1 =
      omega (arith, command_dwords-lt c 1) in
    let b₂ : command_dwords c 2 % 2 ^ 32 ≡ command_dwords c 2 =
      omega (arith, command_dwords-lt c 2) in
    let b₃ : command_dwords c 3 % 2 ^ 32 ≡ command_dwords c 3 =
      omega (arith, command_dwords-lt c 3) in
    rw (a₀, a₁, a₂, a₃, e₀, e₁, e₂, e₃, b₀, b₁, b₂, b₃) (refl, refl)

-- For a command ring within 64 bits, an input context that is aligned to 16 bytes and a slot
-- below 256, the command that `Xhci` puts on the ring reads back from memory with all its fields,
-- and as a transfer request block it has type 12, cycle bit 1 and the address of the input
-- context.
pub put_command_lem :
    (p input_context slot_id : ℕ) (m : Memory)
    → p + 16 < 2 ^ 64
    → input_context < 2 ^ 64
    → input_context % 16 ≡ 0
    → slot_id < 2 ^ 8
    → let d = dwords_at (put_command p (command_dwords (command_for input_context slot_id)) m) p in
      (configure_endpoint_command d ≡ command_for input_context slot_id)
      × ((trb d).trb_type ≡ 12)
      × ((trb d).cycle_bit ≡ 1)
      × ((trb d).parameter ≡ input_context)
put_command_lem p input_context slot_id m fits address aligned slot =
    let c = command_for input_context slot_id in
    let (command, generic) = put_command-decoded p c m fits in
    let (same, cycle, type, parameter) = command_round_trip c (record {
      input_context_pointer = omega arith;
      cycle_bit = omega arith;
      deconfigure = omega arith;
      trb_type = omega arith;
      slot_id = slot;
    }) in
    (
      command ∙ same,
      ap (λ t. t.trb_type) generic ∙ type,
      ap (λ t. t.cycle_bit) generic ∙ cycle,
      ap (λ t. t.parameter) generic ∙ parameter ∙ omega arith,
    )

-- The input context before the endpoint is copied: 1056 bytes of which the add flags have bit 2.
flagged_lem :
    (a b : ℕ) (m : Memory)
    → read8 (write32 (memset a 0 1056 m) (a + 4) 4) b
      ≡ (if b == a + 4 then 4 else (if within a 1056 b then 0 else read8 m b))
unfolding write32
flagged_lem a b m = ground (arith, memset_lem 1056 a 0 b m)

cleared_lem : (a : ℕ) (m : Memory) → read32 (memset a 0 1056 m) (a + 4) ≡ 0
unfolding read32
cleared_lem a m = ground (
  arith,
  memset_lem 1056 a 0 (a + 4) m,
  memset_lem 1056 a 0 (a + 4 + 1) m,
  memset_lem 1056 a 0 (a + 4 + 2) m,
  memset_lem 1056 a 0 (a + 4 + 3) m,
)

-- If the input context does not overlap the endpoint context that is copied, every byte is
-- afterwards as the command wants it: the 32 bytes of endpoint context 1 are those of the device
-- context, the add flags are 4, the other bytes of the 1056 are 0, and bytes outside are as they
-- were.
pub fill_input_context_lem :
    (a dcaddr b : ℕ) (m : Memory)
    → (a + 1056 ≤ dcaddr + 64) ⊎ (dcaddr + 96 ≤ a)
    → read8 (fill_input_context a dcaddr m) b ≡ (
        if within (a + 96) 32 b
        then read8 m (dcaddr + 64 + (b - (a + 96)))
        else (if b == a + 4 then 4 else (if within a 1056 b then 0 else read8 m b)))
unfolding fill_input_context
fill_input_context_lem a dcaddr b m apart =
    let flagged = write32 (memset a 0 1056 m) (a + 4) 4 in
    let dest : a + 64 + 32 ≡ a + 96 = omega arith in
    let src : dcaddr + 32 + 32 ≡ dcaddr + 64 = omega arith in
    rw (cleared_lem a m, dest, src)
      (memcpy_lem 32 (a + 96) (dcaddr + 64) b flagged (ground (arith, apart))
        ∙ elim (Bool-cases (within (a + 96) 32 b)) [
          | inl copied ↦
              rw copied (flagged_lem a (dcaddr + 64 + (b - (a + 96))) m ∙ ground (arith, apart))
          | inr other ↦ rw other (flagged_lem a b m)
        ])

module _ (io : Ports) (work : io.State → Memory → io.State × Memory) (frame : Frame) where
  -- If the table has devices and none of them is an xHCI controller, `Xhci` prints that there is
  -- none and changes nothing else.
  pub xhci_absent :
      (fuel argc : ℕ) (argv : List (List ℕ)) (w : Machine (io.State))
      → w.devices.num_pci_devices ≢ 0
      → ((i : ℕ) → i < w.devices.num_pci_devices → is_xhci (device_at w.devices i) ≡ false)
      → xhci io work frame fuel argc argv w
        ≡ Outcome.done (tt, printing (Printed.usb_line UsbLine.no_device [] ∷ []) w)
  unfolding xhci drive_found
  xhci_absent fuel argc argv w scanned absent =
      bind_done (find_devices io fuel) (λ _. drive_found io work frame fuel) w
        (find_devices-again io fuel w scanned)
      ∙ rw
          (
            drive_found,
            find_index-none is_xhci w.devices w.devices.num_pci_devices 0
                (λ j h. absent j (omega arith)),
          )
          refl
