-- ===== src/Keyboard/Shift.antt =====
-- What `decode` makes of scan codes.
use seccamp_os.Base.{
  ◌↔◌, ℕ, zero, suc, ◌+◌, ◌-◌, ◌%◌, ◌<◌, ◌≤◌, ◌≡◌, refl, subst, ==_iff, arith, Bool, true, false,
  some, ◌&&◌, not, ltb, leb, ◌==◌, if◌then◌else◌, bit_and-low, Bool-cases, inl, inr,
}
use seccamp_os.Keyboard.Decode.{decode, ascii_of, is_shift}

-- A test run on `count` numbers from `start` on.
passes : (ℕ → Bool) → ℕ → ℕ → Bool
passes test start zero = true
passes test start (suc count) = test start && passes test (start + 1) count

passes-at :
    (test : ℕ → Bool) (start count key : ℕ)
    → passes test start count ≡ true
    → start ≤ key
    → key < start + count
    → test key ≡ true
unfolding passes
passes-at test start zero key run low high = absurd (omega arith)
passes-at test start (suc count) key run low high = elim (Bool-cases (start == key)) [
  | inl here ↦
      let e : start ≡ key = (==_iff start key).0 here in
      ground (arith, subst (λ k. test k ≡ true) e)
  | inr beyond ↦ passes-at test (start + 1) count key (ground arith) (ground arith) (omega arith)
]

abbrev pub is_upper : ℕ → Bool
is_upper c = leb b'A' c && leb c b'Z'

abbrev pub is_lower : ℕ → Bool
is_lower c = leb b'a' c && leb c b'z'

-- What the two tables have to satisfy at a scan code.
abbrev good_key : ℕ → Bool
good_key key =
    let plain = ascii_of false key in
    let shifted = ascii_of true key in
    (ltb plain 128 && ltb shifted 128)
    && (not (is_upper plain) && not (is_lower shifted))
    && (if is_lower plain then shifted + 32 == plain else not (is_upper shifted))

tables_good : passes good_key 0 128 ≡ true
unfolding passes ascii_of
tables_good = refl

good : (key : ℕ) → key < 128 → good_key key ≡ true
good key h = passes-at good_key 0 128 key tables_good (omega arith) (omega arith)

good_plain :
    (key : ℕ)
    → key < 128
    → (ascii_of false key < 128)
      × (is_upper (ascii_of false key) ≡ false)
      × (is_lower (ascii_of false key) ≡ true → ascii_of true key + 32 ≡ ascii_of false key)
good_plain key h = ground (arith, good key h)

good_shifted :
    (key : ℕ)
    → key < 128
    → (ascii_of true key < 128)
      × (is_lower (ascii_of true key) ≡ false)
      × (is_upper (ascii_of true key) ≡ true → ascii_of true key + 32 ≡ ascii_of false key)
good_shifted key h = ground (arith, good key h)

-- When a character is typed at all.
typed_key :
    (shifted : Bool) (key : ℕ) {c : ℕ}
    → (decode shifted key).1 ≡ some c
    → (key < 128) × (is_shift key ≡ false) × (ascii_of shifted key ≡ c) × (0 < c)
unfolding decode
typed_key shifted key e = ground arith

types :
    (shifted : Bool) (key : ℕ)
    → key < 128
    → is_shift key ≡ false
    → 0 < ascii_of shifted key
    → (decode shifted key).1 ≡ some (ascii_of shifted key)
unfolding decode
types shifted key h e pos = ground arith

-- After a scan code of 8 bits the shift state is down if it is the press of a shift key, up if it
-- is the release of one, and else as before.
pub decode_shift :
    (shifted : Bool) (key : ℕ)
    → key < 256
    → (decode shifted key).0 ≡ (if is_shift (key % 128) then ltb key 128 else shifted)
unfolding decode
decode_shift shifted key h = elim (Bool-cases (ltb key 128)) [
  | inl press ↦ let same : key % 128 ≡ key = ground arith in ground arith
  | inr release ↦ ground (arith, bit_and-low 7 key)
]

-- Whenever a scan code types a character, it is the press of a key, and the character is ASCII,
-- not 0, without shift no capital letter and with shift no small one.
pub decode_char :
    (shifted : Bool) (key : ℕ) {c : ℕ}
    → (decode shifted key).1 ≡ some c
    → (key < 128) × (0 < c) × (c < 128) × ((if shifted then is_lower c else is_upper c) ≡ false)
decode_char shifted key e =
    ground (arith, typed_key shifted key e, good_plain key, good_shifted key)

-- For a small letter `c`, a key types `c` without shift exactly if it types the capital of `c`
-- with shift.
pub decode_case :
    (key c : ℕ)
    → is_lower c ≡ true
    → ((decode false key).1 ≡ some c) ↔ ((decode true key).1 ≡ some (c - 32))
decode_case key c low = (
  λ e. ground (arith, typed_key false key e, good_plain key, types true key),
  λ e. ground (arith, typed_key true key e, good_shifted key, types false key),
)
