-- ===== src/Command/Prints.antt =====
-- command.cpp: parts of a command that print, and leave the configuration registers, the table of
-- devices and the memory as they were.
use seccamp_os.Base.{
  ℕ, ◌≡◌, refl, sym, ap, ◌∙◌, List, [], ◌∷◌, ◌++◌, append_assoc, append-nil, Memory,
}
use seccamp_os.Base.State.{Action}
use seccamp_os.Ports.{Ports}
use seccamp_os.Pci.Laws.{Mechanism}
use seccamp_os.Command.Effects.{
  Printed, DeviceTable, Machine, Outcome, Run, pure, ◌>>=◌, at_ports, print, bind_done,
}

module _ (io : Ports) (m : Mechanism io) (reg : ℕ → ℕ) (table : DeviceTable) (mem : Memory) where
  open io use {State}

  -- The machine has these registers, this table and this memory.
  pub record Sees (w : Machine State) : Type 0 where
    pub registers : (a : ℕ) → m.reg w.ports a ≡ reg a
    pub devices : w.devices ≡ table
    pub memory : w.memory ≡ mem

  -- From any such machine a part of a command ends with the value `a` in another such machine,
  -- and has printed `ps`.
  pub record Prints {A : Type 0} (f : Run State A) (a : A) (ps : List Printed) : Type 0 where
    pub ends :
        (w : Machine State)
        → Sees w
        → (w' : Machine State) × (f w ≡ Outcome.done (a, w'))
          × Sees w'
          × (w'.printed ≡ w.printed ++ ps)

  pub Prints-pure : {A : Type 0} (a : A) → Prints (pure a) a []
  Prints-pure a = record { ends = λ w s. (w, refl, s, sym (append-nil w.printed)) }

  pub Prints-print : (p : Printed) → Prints (print p) tt (p ∷ [])
  Prints-print p = record {
    ends = λ w s. (
      record w { printed = w.printed ++ (p ∷ []) },
      refl,
      record { registers = s.registers; devices = s.devices; memory = s.memory },
      refl,
    );
  }

  pub Prints-then :
      {A B : Type 0} (f : Run State A) (k : A → Run State B) {a : A} {b : B} {ps qs : List Printed}
      → Prints f a ps
      → Prints (k a) b qs
      → Prints (f >>= k) b (ps ++ qs)
  Prints-then f k {ps} {qs} hf hk = record {
    ends = λ w s.
        let (w₁, e₁, s₁, p₁) = hf.ends w s in
        let (w₂, e₂, s₂, p₂) = hk.ends w₁ s₁ in
        (w₂, bind_done f k w e₁ ∙ e₂, s₂, p₂ ∙ ap (λ t. t ++ qs) p₁ ∙ append_assoc w.printed ps qs);
  }

  -- An action at the ports that returns `a` and leaves the registers alone, from any state of the
  -- ports that has these registers.
  abbrev pub Returns : {A : Type 0} → Action State A → A → Type 0
  Returns f a =
      (s : State)
      → ((b : ℕ) → m.reg s b ≡ reg b)
      → ((f s).0 ≡ a) × ((b : ℕ) → m.reg (f s).1 b ≡ reg b)

  pub Prints-ports :
      {A : Type 0} (f : Action State A) {a : A} → Returns f a → Prints (at_ports f) a []
  Prints-ports f h = record {
    ends = λ w s.
        let (value, same) = h w.ports s.registers in
        (
          record w { ports = (f w.ports).1 },
          ap (λ t. Outcome.done (t, record w { ports = (f w.ports).1 })) value,
          record { registers = same; devices = s.devices; memory = s.memory },
          sym (append-nil w.printed),
        );
  }

  pub Prints-ports_then :
      {A B : Type 0} (f : Action State A) (k : A → Run State B) {a : A} {b : B} {qs : List Printed}
      → Returns f a
      → Prints (k a) b qs
      → Prints (at_ports f >>= k) b qs
  Prints-ports_then f k hf hk = Prints-then (at_ports f) k (Prints-ports f hf) hk

  pub Prints-print_then :
      {B : Type 0} (p : Printed) (k : Run State B) {b : B} {qs : List Printed}
      → Prints k b qs
      → Prints (print p >>= (λ _. k)) b (p ∷ qs)
  Prints-print_then p k hk = Prints-then (print p) (λ _. k) (Prints-print p) hk
