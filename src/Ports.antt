-- ===== src/Ports.antt =====
-- The I/O ports behind `IoOut8`, `IoIn8`, `IoOut32` and `IoIn32` of asmfunc.s. The devices are not
-- part of the repository: their state and what they do at each access are a parameter.
use seccamp_os.Base.{ℕ}

pub record Ports : Type 1 where
  pub State : Type 0
  pub out8 : ℕ → ℕ → State → State
  pub in8 : ℕ → State → ℕ × State
  pub out32 : ℕ → ℕ → State → State
  pub in32 : ℕ → State → ℕ × State
