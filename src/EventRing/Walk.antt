-- ===== src/EventRing/Walk.antt =====
-- xhci_er.hpp: `Pop` walks the TRBs of the segments one after another, round and round.
use seccamp_os.Base.{
  ℕ, zero, suc, ◌+◌, ◌-◌, ◌*◌, ◌/◌, ◌%◌, ◌^◌, ◌<◌, ◌≤◌, ◌≡◌, ◌⊎◌, inl, inr, refl, ap, ◌∙◌, arith,
  true, false, Bool-cases, Memory, read32, write32, read32-write32, read32-write32_away, ◌==◌,
  if◌then◌else◌, u64,
}
use seccamp_os.Bitutil.{clear_bits}
use seccamp_os.Bitutil.Laws.{clear_bits-low}
use seccamp_os.Register
use seccamp_os.EventRing.{
  Manager, begin, size, cend, read_dequeue_pointer, write_dequeue_pointer, next_segment, pop, erdp,
}

-- `n` segments with their bases and sizes, in a table at `erst` that the registers do not overlap.
pub record IsTable (regs erst n : ℕ) (base sizes : ℕ → ℕ) (m : Memory) : Type 0 where
  pub some_segments : 0 < n
  pub table_fits : erst + 16 * n < 2 ^ 64
  pub apart : (erst + 16 * n ≤ regs + erdp) ⊎ (regs + erdp + 8 ≤ erst)
  pub begins : (i : ℕ) → i < n → begin m erst i ≡ base i
  pub counts : (i : ℕ) → i < n → size m erst i ≡ sizes i
  pub aligned : (i : ℕ) → i < n → base i % 16 ≡ 0
  pub full : (i : ℕ) → i < n → 0 < sizes i
  pub fits : (i : ℕ) → i < n → base i + 16 * sizes i < 2 ^ 64

-- A place on the ring: the segment, the TRB in it, and the cycle state.
pub record Place : Type 0 where
  pub segment : ℕ
  pub trb : ℕ
  pub cycle : ℕ

-- The place behind a place.
abbrev pub next : ℕ → (ℕ → ℕ) → Place → Place
next n sizes p =
    if p.trb + 1 == sizes p.segment
    then (if p.segment + 1 == n
        then record { segment = 0; trb = 0; cycle = 1 - p.cycle }
        else record { segment = p.segment + 1; trb = 0; cycle = p.cycle })
    else record { segment = p.segment; trb = p.trb + 1; cycle = p.cycle }

-- The manager and its dequeue pointer stand at a place.
pub record StandsAt (regs erst n : ℕ) (base sizes : ℕ → ℕ) (p : Place) (r : Manager) (m : Memory)
    : Type 0 where
  pub table : r.erst ≡ erst
  pub table_size : r.erst_size ≡ n
  pub index : r.erst_index ≡ p.segment
  pub state : r.producer_cycle ≡ p.cycle
  pub in_table : p.segment < n
  pub in_segment : p.trb < sizes p.segment
  pub one_bit : p.cycle < 2
  pub pointer : Register.read_64 m (regs + erdp) ≡ base p.segment + 16 * p.trb

pub read_64-write_64 :
    (v : ℕ) (m : Memory) (a : ℕ) → v < 2 ^ 64 → Register.read_64 (Register.write_64 v m a) a ≡ v
unfolding Register.read_64 Register.write_64
read_64-write_64 v m a h = omega (
  arith,
  read32-write32_away (write32 m a v) (a + 4) (v / 2 ^ 32) a (inl (omega arith)),
  read32-write32 m a v,
  read32-write32 (write32 m a v) (a + 4) (v / 2 ^ 32),
)

read32-write_64_away :
    (v : ℕ) (m : Memory) (a b : ℕ)
    → (b + 4 ≤ a) ⊎ (a + 8 ≤ b)
    → read32 (Register.write_64 v m a) b ≡ read32 m b
unfolding Register.write_64
read32-write_64_away v m a b h =
    read32-write32_away (write32 m a v) (a + 4) (v / 2 ^ 32) b (ground arith)
    ∙ read32-write32_away m a v b (ground arith)

module _ {regs erst n : ℕ} {base sizes : ℕ → ℕ} where
  -- Moving the dequeue pointer leaves the table alone.
  pub write_dequeue_pointer-IsTable :
      (v : ℕ) {m : Memory}
      → IsTable regs erst n base sizes m
      → IsTable regs erst n base sizes (write_dequeue_pointer regs v m)
  unfolding write_dequeue_pointer begin size Register.read_64
  write_dequeue_pointer-IsTable v {m} t = record {
    some_segments = t.some_segments;
    table_fits = t.table_fits;
    apart = t.apart;
    begins = λ i h.
        rw
          (
            place i h,
            read32-write_64_away v m (regs + erdp) (erst + 16 * i) (ground (arith, t.apart)),
            read32-write_64_away v m (regs + erdp) (erst + 16 * i + 4) (ground (arith, t.apart)),
          )
          (rw (place i h) at (t.begins i h));
    counts = λ i h.
        rw
          (
            place i h,
            read32-write_64_away v m (regs + erdp) (erst + 16 * i + 8) (ground (arith, t.apart)),
          )
          (rw (place i h) at (t.counts i h));
    aligned = t.aligned;
    full = t.full;
    fits = t.fits;
  }
    where
      place : (i : ℕ) → i < n → u64 (erst + 16 * i) ≡ erst + 16 * i
      place i h = omega (arith, t.table_fits)

  module _ {p : Place} {r : Manager} {m : Memory} (t : IsTable regs erst n base sizes m)
      (s : StandsAt regs erst n base sizes p r m) where
    top : base p.segment + 16 * sizes p.segment < 2 ^ 64
    top = t.fits p.segment s.in_table

    pub read_dequeue_pointer_lem : read_dequeue_pointer regs m ≡ base p.segment + 16 * p.trb
    unfolding read_dequeue_pointer
    read_dequeue_pointer_lem =
        let low : (base p.segment + 16 * p.trb) % 16 ≡ 0 =
          omega (arith, t.aligned p.segment s.in_table) in
        ap (λ v. clear_bits 64 v 0xf) s.pointer
        ∙ clear_bits-low 60 4 (base p.segment + 16 * p.trb) (omega (arith, top, s.in_segment))
        ∙ omega arith

    cend_lem : cend m r.erst r.erst_index ≡ base p.segment + 16 * sizes p.segment
    unfolding cend
    cend_lem =
        rw (s.table, s.index, t.begins p.segment s.in_table, t.counts p.segment s.in_table)
          (omega (arith, top))

    -- Where the pointer is written, the manager stands.
    StandsAt-write :
        (q : Place) (r' : Manager) (v : ℕ)
        → r'.erst ≡ erst
        → r'.erst_size ≡ n
        → r'.erst_index ≡ q.segment
        → r'.producer_cycle ≡ q.cycle
        → q.segment < n
        → q.trb < sizes q.segment
        → q.cycle < 2
        → v ≡ base q.segment + 16 * q.trb
        → StandsAt regs erst n base sizes q r' (write_dequeue_pointer regs v m)
    unfolding write_dequeue_pointer
    StandsAt-write q r' v e₁ e₂ e₃ e₄ h₁ h₂ h₃ e = record {
      table = e₁;
      table_size = e₂;
      index = e₃;
      state = e₄;
      in_table = h₁;
      in_segment = h₂;
      one_bit = h₃;
      pointer = read_64-write_64 v m (regs + erdp) (omega (arith, t.fits q.segment h₁)) ∙ e;
    }

    base_at : (i k : ℕ) → k < n → i ≡ k → begin m r.erst i ≡ base k + 16 * 0
    base_at i k h e = rw (s.table, e, t.begins k h) (omega arith)

    pub pop_lem :
        IsTable regs erst n base sizes (pop regs r m).1
        × StandsAt regs erst n base sizes (next n sizes p) (pop regs r m).0 (pop regs r m).1
    unfolding pop next_segment
    pop_lem =
        let moved : u64 (read_dequeue_pointer regs m + 16) ≡ base p.segment + 16 * (p.trb + 1) =
          ap (λ v. u64 (v + 16)) read_dequeue_pointer_lem ∙ omega (arith, top, s.in_segment) in
        elim (Bool-cases (p.trb + 1 == sizes p.segment)) [
          | inl last ↦
              let at_end : (base p.segment + 16 * (p.trb + 1)
                    == base p.segment + 16 * sizes p.segment)
                  ≡ true =
                ground arith in
              elim (Bool-cases (p.segment + 1 == n)) [
                | inl around ↦
                    let wraps : (u64 (r.erst_index + 1) == r.erst_size) ≡ true =
                      ground (arith, s.index, s.table_size, s.in_table, t.table_fits) in
                    rw (moved, cend_lem, at_end, wraps, last, around)
                      (
                        write_dequeue_pointer-IsTable (begin m r.erst 0) t,
                        StandsAt-write (record { segment = 0; trb = 0; cycle = 1 - p.cycle })
                            (record r {
                              producer_cycle = (257 - r.producer_cycle) % 256;
                              erst_index = 0;
                            })
                            (begin m r.erst 0) s.table s.table_size refl
                            (omega (arith, s.state, s.one_bit)) t.some_segments
                            (t.full 0 t.some_segments) (omega arith)
                            (base_at 0 0 t.some_segments refl),
                      )
                | inr onward ↦
                    let more : p.segment + 1 < n = ground (arith, s.in_table) in
                    let step : u64 (r.erst_index + 1) ≡ p.segment + 1 =
                      omega (arith, s.index, s.in_table, t.table_fits) in
                    let stays : (u64 (r.erst_index + 1) == r.erst_size) ≡ false =
                      ground (arith, s.index, s.table_size, s.in_table, t.table_fits) in
                    rw (moved, cend_lem, at_end, stays, last, onward)
                      (
                        write_dequeue_pointer-IsTable (begin m r.erst (u64 (r.erst_index + 1))) t,
                        StandsAt-write
                            (record { segment = p.segment + 1; trb = 0; cycle = p.cycle })
                            (record r { erst_index = u64 (r.erst_index + 1) })
                            (begin m r.erst (u64 (r.erst_index + 1))) s.table s.table_size step
                            s.state more (t.full (p.segment + 1) more) s.one_bit
                            (base_at (u64 (r.erst_index + 1)) (p.segment + 1) more step),
                      )
              ]
          | inr inside ↦
              let before_end : (base p.segment + 16 * (p.trb + 1)
                    == base p.segment + 16 * sizes p.segment)
                  ≡ false =
                ground arith in
              rw (moved, cend_lem, before_end, inside)
                (
                  write_dequeue_pointer-IsTable (base p.segment + 16 * (p.trb + 1)) t,
                  StandsAt-write (record { segment = p.segment; trb = p.trb + 1; cycle = p.cycle })
                      r (base p.segment + 16 * (p.trb + 1)) s.table s.table_size s.index s.state
                      s.in_table (ground (arith, s.in_segment)) s.one_bit refl,
                )
        ]

-- A number of pops, one after another.
unfoldable pub pops : ℕ → ℕ → Manager × Memory → Manager × Memory
pops regs zero s = s
pops regs (suc count) (r, m) = pops regs count (pop regs r m)

abbrev pub advance : ℕ → (ℕ → ℕ) → ℕ → Place → Place
advance n sizes zero p = p
advance n sizes (suc count) p = advance n sizes count (next n sizes p)

-- If the segment table lies apart from the dequeue pointer and its segments are aligned, not
-- empty and within 64 bits, and the manager stands at a place on the ring, any number of `Pop`
-- leaves the table as it was and the manager at the place that many steps on: TRB after TRB,
-- segment after segment in the order of the table, and from the end of the last to the first with
-- the cycle state flipped.
pub pops_lem :
    {regs erst n : ℕ} {base sizes : ℕ → ℕ} (count : ℕ) {p : Place} {r : Manager} {m : Memory}
    → IsTable regs erst n base sizes m
    → StandsAt regs erst n base sizes p r m
    → IsTable regs erst n base sizes (pops regs count (r, m)).1
      × StandsAt regs erst n base sizes
          (advance n sizes count p)
          (pops regs count (r, m)).0
          (pops regs count (r, m)).1
unfolding pops
pops_lem zero t s = (t, s)
pops_lem (suc count) t s = let (t', s') = pop_lem t s in pops_lem count t' s'
