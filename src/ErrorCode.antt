-- ===== src/ErrorCode.antt =====
-- errorcode.hpp: the error numbers and the pair of a value and an error.
use seccamp_os.Base.{ℕ, Bool, ◌!=◌}

-- `using Error = errorcode::Type`, an `int`.
abbrev pub Error : Type 0
Error = ℕ

abbrev pub success : Error
success = 0

abbrev pub index_out_of_range : Error
index_out_of_range = 1

abbrev pub full : Error
full = 2

abbrev pub empty : Error
empty = 3

abbrev pub not_implemented : Error
not_implemented = 4

abbrev pub invalid_value : Error
invalid_value = 5

unfoldable pub is_error : Error → Bool
is_error code = code != success

pub record WithError (A : Type 0) : Type 0 where
  pub value : A
  pub error : Error
