-- ===== src/Command/Search.antt =====
-- command.cpp: the search for a device in the table, by Lspci and by Xhci.
use seccamp_os.Base.{
  ℕ, zero, suc, ◌+◌, ◌<◌, ◌≤◌, ◌≡◌, ◌≢◌, refl, arith, true, false, Option, some, none, ==_ne, Bool,
}
use native.Mathlib.Decide.{ℕ_discrete}
use seccamp_os.Ports.{Ports}
use seccamp_os.Pci.Scan.{ScanCallbackParam}
use seccamp_os.Command.{device_at, is_at, find_index, find_devices}
use seccamp_os.Command.Effects.{DeviceTable, Machine, Outcome}

-- The loop over the table stops at the first device that passes the test, or finds none.
pub find_index-first :
    (test : ScanCallbackParam → Bool) (t : DeviceTable) (rounds start i : ℕ)
    → start ≤ i
    → i < start + rounds
    → test (device_at t i) ≡ true
    → ((j : ℕ) → start ≤ j → j < i → test (device_at t j) ≡ false)
    → find_index test t rounds start ≡ some i
unfolding find_index
find_index-first test t zero start i low high found before = absurd (omega arith)
find_index-first test t (suc rounds) start i low high found before = elim (ℕ_discrete start i) [
  | yes here ↦ rw (here, found) refl
  | no away ↦ rw (before start (omega arith) (omega arith)) (
      find_index-first test t rounds (start + 1) i (omega arith) (omega arith) found
        (λ j h. before j (omega arith)))
]

pub find_index-none :
    (test : ScanCallbackParam → Bool) (t : DeviceTable) (rounds start : ℕ)
    → ((j : ℕ) → j < start + rounds → test (device_at t j) ≡ false)
    → find_index test t rounds start ≡ none
unfolding find_index
find_index-none test t zero start absent = refl
find_index-none test t (suc rounds) start absent =
    rw (absent start (omega arith))
      (find_index-none test t rounds (start + 1) (λ j h. absent j (omega arith)))

-- The specifier is none, or that of no device in the table.
abbrev pub Unknown : Option (ℕ × ℕ × ℕ) → DeviceTable → Type 0
Unknown none t = Unit
Unknown (some (bus, dev, func)) t =
    (j : ℕ) → j < t.num_pci_devices → is_at bus dev func (device_at t j) ≡ false

-- Device `i` of the table is the first one with these numbers.
pub record IsFirst (bus dev func i : ℕ) (t : DeviceTable) : Type 0 where
  pub in_table : i < t.num_pci_devices
  pub matches : is_at bus dev func (device_at t i) ≡ true
  pub others : (j : ℕ) → j < i → is_at bus dev func (device_at t j) ≡ false

-- Once there are devices in the table the buses are not scanned.
pub find_devices-again :
    (io : Ports) (fuel : ℕ) (w : Machine (io.State))
    → w.devices.num_pci_devices ≢ 0
    → find_devices io fuel w ≡ Outcome.done (tt, w)
unfolding find_devices
find_devices-again io fuel w scanned = rw (==_ne w.devices.num_pci_devices 0 scanned) refl
