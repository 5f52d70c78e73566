-- ===== src/Command/Table.antt =====
-- command.cpp: what the callback of Lspci makes of the table of devices.
use seccamp_os.Base.{
  ◌+◌, ◌<◌, ◌≤◌, ◌≡◌, refl, sym, ap, ◌∙◌, arith, some, none, List, [], ◌∷◌, ◌++◌, append_assoc,
  length, length-append, append-nil, get_or, set, lt→ltb, le→ltb,
}
use native.Mathlib.Decide.{dec_lt}
use seccamp_os.Pci.Scan.{ScanCallbackParam}
use seccamp_os.Pci.Scan.Found.{run_callback}
use seccamp_os.Command.{blank, max_devices, store_device}
use seccamp_os.Command.Effects.{DeviceTable}

abbrev pub Entries : Type 0
Entries = List ScanCallbackParam

-- The table holds the devices of the list, in order.
pub record IsTable (ps : Entries) (t : DeviceTable) : Type 0 where
  pub rest : Entries
  pub holds : t.pci_devices ≡ ps ++ rest
  pub counts : t.num_pci_devices ≡ length ps
  pub size : length t.pci_devices ≡ max_devices

pub append_one :
    (ps rest : Entries) (p : ScanCallbackParam) → (ps ++ (p ∷ [])) ++ rest ≡ ps ++ (p ∷ rest)
append_one ps rest p = append_assoc ps (p ∷ []) rest

set-next :
    (ps rest : Entries) (p q : ScanCallbackParam)
    → set (ps ++ (q ∷ rest)) (length ps) p ≡ ps ++ (p ∷ rest)
set-next [] rest p q = refl
set-next (x ∷ ps) rest p q = ap (λ t. x ∷ t) (set-next ps rest p q)

pub device_at-next :
    (ps rest : Entries) (p : ScanCallbackParam) → get_or (ps ++ (p ∷ rest)) (length ps) blank ≡ p
device_at-next [] rest p = refl
device_at-next (x ∷ ps) rest p = device_at-next ps rest p

-- A device is stored while there is room.
store-IsTable :
    (ps : Entries) (p : ScanCallbackParam) (t : DeviceTable)
    → IsTable ps t
    → length ps < max_devices
    → (t' : DeviceTable) × (store_device p (some t) ≡ some t') × IsTable (ps ++ (p ∷ [])) t'
unfolding store_device
store-IsTable ps p t h room = go h.rest h.holds
  where
    go :
        (rest : Entries)
        → t.pci_devices ≡ ps ++ rest
        → (t' : DeviceTable) × (store_device p (some t) ≡ some t') × IsTable (ps ++ (p ∷ [])) t'
    go [] e = absurd (omega (arith, ap length e, length-append ps [], h.size))
    go (q ∷ rest) e = (
      record { pci_devices = ps ++ (p ∷ rest); num_pci_devices = t.num_pci_devices + 1 },
      rw
          (
            lt→ltb t.num_pci_devices max_devices (omega (arith, h.counts)),
            h.counts,
            e,
            set-next ps rest p q,
          )
          refl,
      record {
        rest = rest;
        holds = sym (append_one ps rest p);
        counts = omega (arith, h.counts, length-append ps (p ∷ []));
        size =
            omega (
              arith,
              h.size,
              ap length e,
              length-append ps (q ∷ rest),
              length-append ps (p ∷ rest),
            );
      },
    )

-- All of them fit.
pub stores-IsTable :
    (qs ps : Entries) (t : DeviceTable)
    → IsTable ps t
    → length ps + length qs ≤ max_devices
    → (t' : DeviceTable) × (run_callback store_device qs (some t) ≡ some t') × IsTable (ps ++ qs) t'
stores-IsTable [] ps t h fits = (t, refl, rw append-nil h)
stores-IsTable (q ∷ qs) ps t h fits =
    let (t₁, stored, h₁) = store-IsTable ps q t h (omega arith) in
    let (t₂, all, h₂) =
      stores-IsTable qs (ps ++ (q ∷ [])) t₁ h₁ (omega (arith, length-append ps (q ∷ []))) in
    (t₂, ap (λ o. run_callback store_device qs o) stored ∙ all, rw (append_one ps qs q) at h₂)

store-outside :
    (p : ScanCallbackParam) (t : DeviceTable)
    → max_devices ≤ t.num_pci_devices
    → store_device p (some t) ≡ none
unfolding store_device
store-outside p t le = rw (le→ltb t.num_pci_devices max_devices le) refl

stores-none : (qs : Entries) → run_callback store_device qs none ≡ none
unfolding store_device
stores-none [] = refl
stores-none (q ∷ qs) = stores-none qs

-- One too many.
pub stores-overflow :
    (qs ps : Entries) (t : DeviceTable)
    → IsTable ps t
    → length ps ≤ max_devices
    → max_devices < length ps + length qs
    → run_callback store_device qs (some t) ≡ none
stores-overflow [] ps t h fits many = absurd (omega arith)
stores-overflow (q ∷ qs) ps t h fits many = elim (dec_lt (length ps) max_devices) [
  | yes room ↦
      let (t₁, stored, h₁) = store-IsTable ps q t h room in
      ap (λ o. run_callback store_device qs o) stored
      ∙ stores-overflow qs (ps ++ (q ∷ [])) t₁ h₁ (omega (arith, length-append ps (q ∷ [])))
          (omega (arith, length-append ps (q ∷ [])))
  | no is_full ↦
      ap (λ o. run_callback store_device qs o) (store-outside q t (omega (arith, h.counts)))
      ∙ stores-none qs
]
