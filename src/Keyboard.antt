-- ===== src/Keyboard.antt =====
-- main.cpp: the keyboard, from the interrupt handler through the key queue to the characters that
-- the main loop hands to the shell.
pub mod Tables
pub mod Decode
pub mod Loop
pub mod Abstract
pub mod Shift
pub mod Related
pub mod Refine
pub mod Delivery
pub mod Wakeup
use seccamp_os.Base.{
  ℕ, zero, suc, ◌+◌, Option, none, some, Bool, ◌==◌, if◌then◌else◌, u8, u32, bit_and,
}
use seccamp_os.Queue
use seccamp_os.Queue.{ArrayQueue}
use seccamp_os.Mutex
use seccamp_os.Mutex.{SpinLockMutex}
use seccamp_os.Ports.{Ports}

-- `ArrayQueue<uint8_t, 16> keydat`
abbrev pub capacity : ℕ
capacity = 16

-- The globals that the handler and the main loop share.
pub record Shared : Type 0 where
  pub keydat : ArrayQueue ℕ
  pub keydat_mutex : SpinLockMutex
  pub num_lostkey : ℕ

-- What the handler does with the scan code `dat`.
unfoldable pub deliver : ℕ → Shared → Shared
unfolding Mutex.try_lock Mutex.unlock Queue.push
deliver dat s =
    let (taken, held) = Mutex.try_lock s.keydat_mutex in
    if taken
    then record s {
      keydat = (Queue.push capacity dat s.keydat).1;
      keydat_mutex = Mutex.unlock held;
    }
    else record s { keydat_mutex = held; num_lostkey = u32 (s.num_lostkey + 1) }

abbrev pub pic0_ocw2 : ℕ
pic0_ocw2 = 0x20

abbrev pub pic0_imr : ℕ
pic0_imr = 0x21

abbrev pub pic1_icw1 : ℕ
pic1_icw1 = 0xa0

abbrev pub pic1_imr : ℕ
pic1_imr = 0xa1

abbrev pub port_keydat : ℕ
port_keydat = 0x60

abbrev pub port_keycmd : ℕ
port_keycmd = 0x64

module _ (io : Ports) where
  open io use {State, out8, in8}

  unfoldable pub init_pic : State → State
  init_pic s =
      let s = out8 pic0_imr 0xff s in
      let s = out8 pic1_imr 0xff s in
      let s = out8 pic0_ocw2 0x11 s in
      let s = out8 pic0_imr 0x20 s in
      let s = out8 pic0_imr 4 s in
      let s = out8 pic0_imr 0x01 s in
      let s = out8 pic1_icw1 0x11 s in
      let s = out8 pic1_imr 0x28 s in
      let s = out8 pic1_imr 2 s in
      let s = out8 pic1_imr 0x01 s in let s = out8 pic0_imr 0xf9 s in out8 pic1_imr 0xff s

  -- `wait_KBC_sendready`; `none` when the controller is not ready after `fuel` reads.
  unfoldable pub wait_kbc_sendready : ℕ → State → Option State
  wait_kbc_sendready zero s = none
  wait_kbc_sendready (suc fuel) s =
      let (status, s') = in8 port_keycmd s in
      let rest = wait_kbc_sendready fuel s' in if bit_and status 0x02 == 0 then some s' else rest

  unfoldable pub init_keyboard : ℕ → State → Option State
  init_keyboard fuel s = elim (wait_kbc_sendready fuel s) [
    | none ↦ none
    | some s₁ ↦ elim (wait_kbc_sendready fuel (out8 port_keycmd 0x60 s₁)) [
      | none ↦ none
      | some s₂ ↦ some (out8 port_keydat 0x47 s₂)
    ]
  ]

  -- `Inthandler21`
  pub inthandler21 : Shared → State → Shared × State
  inthandler21 shared s =
      let s₁ = out8 pic0_ocw2 0x61 s in
      let (dat, s₂) = in8 port_keydat s₁ in (deliver (u8 dat) shared, s₂)
