-- ===== src/Console/Cursor.antt =====
-- Where the cursor of the console goes.
use seccamp_os.Base.{
  ℕ, zero, suc, ◌+◌, ◌-◌, ◌*◌, ◌^◌, ◌<◌, ◌≤◌, ◌≡◌, ◌≢◌, refl, arith, ap, List, [], ◌∷◌, ltb, ◌==◌,
  if◌then◌else◌, min, Bool-cases, inl, inr,
}
use native.Mathlib.Decide.{ℕ_discrete}
use seccamp_os.Console.{DebugConsole, Screen, newline, backspace, move_right, put_char, put_str}

-- The cursor is on the grid.
pub record IsValid (c : DebugConsole) : Type 0 where
  pub column : c.cur.x < c.size.width
  pub line : c.cur.y < c.size.height
  pub width_small : c.size.width < 2 ^ 31
  pub height_small : c.size.height < 2 ^ 31

-- The cell of the cursor, line after line.
abbrev pub cell : DebugConsole → ℕ
cell c = c.cur.y * c.size.width + c.cur.x

newline-IsValid : {c : DebugConsole} → IsValid c → IsValid (newline c)
unfolding newline
newline-IsValid v = ground arith

backspace-IsValid : {c : DebugConsole} → IsValid c → IsValid (backspace c)
unfolding backspace
backspace-IsValid v = ground arith

move_right-IsValid : {c : DebugConsole} → IsValid c → IsValid (move_right c)
unfolding move_right
move_right-IsValid v = ground arith

put_char-IsValid : (font ch : ℕ) (s : Screen) → IsValid s.0 → IsValid (put_char font ch s).0
unfolding put_char
put_char-IsValid font ch (c, m) v = elim (Bool-cases (ch == 0x0a)) [
  | inl line ↦ rw line (newline-IsValid v)
  | inr other ↦ elim (Bool-cases (ch == 0x08)) [
    | inl back ↦ rw (other, back) (backspace-IsValid v)
    | inr text ↦ rw (other, text) (move_right-IsValid v)
  ]
]

-- If the cursor lies on the grid, and the grid has sides below 2 ^ 31, the cursor lies on the
-- grid after any text.
pub put_str-IsValid :
    (font : ℕ) (chs : List ℕ) (s : Screen) → IsValid s.0 → IsValid (put_str font chs s).0
unfolding put_str
put_str-IsValid font [] s v = v
put_str-IsValid font (ch ∷ chs) s v =
    put_str-IsValid font chs (put_char font ch s) (put_char-IsValid font ch s v)

rows_le : (k w h : ℕ) → k ≤ h → k * w ≤ w * h
rows_le k w h e = grind arith

pred_mul : (y w : ℕ) → y ≢ 0 → y * w ≡ (y - 1) * w + w
pred_mul zero w ne = absurd (ne refl)
pred_mul (suc y) w ne = let e : suc y - 1 ≡ y = omega arith in rw e (omega arith)

newline-cell :
    (c : DebugConsole)
    → IsValid c
    → cell (newline c) ≡ min (c.cur.y + 1) (c.size.height - 1) * c.size.width
unfolding newline
newline-cell c v = elim (Bool-cases (ltb (c.cur.y + 1) c.size.height)) [
  | inl below ↦
      let next : min (c.cur.y + 1) (c.size.height - 1) ≡ c.cur.y + 1 = ground arith in
      rw next (ground arith)
  | inr bottom ↦
      let last : min (c.cur.y + 1) (c.size.height - 1) ≡ c.cur.y = ground arith in
      rw last (ground arith)
]

move_right-cell :
    (c : DebugConsole)
    → IsValid c
    → cell (move_right c) ≡ (
        if ltb (cell c + 1) (c.size.width * c.size.height)
        then cell c + 1
        else (c.size.height - 1) * c.size.width)
unfolding move_right
move_right-cell c v =
    let one_more = rows_le (c.cur.y + 1) c.size.width c.size.height (omega arith) in
    elim (Bool-cases (ltb (c.cur.x + 1) c.size.width)) [
      | inl inside ↦ ground arith
      | inr at_end ↦ elim (Bool-cases (ltb (c.cur.y + 1) c.size.height)) [
        | inl below ↦ ground (arith, rows_le (c.cur.y + 2) c.size.width c.size.height)
        | inr bottom ↦
            let last : c.size.height - 1 ≡ c.cur.y = ground arith in
            let area = pred_mul c.size.height c.size.width (λ e. absurd (omega arith)) in
            let base : (c.size.height - 1) * c.size.width ≡ c.cur.y * c.size.width =
              ap (λ (t : ℕ). t * c.size.width) last in
            ground arith
      ]
    ]

backspace-cell :
    (c : DebugConsole)
    → IsValid c
    → cell (backspace c) ≡ (if cell c == 0 then c.size.width - 1 else cell c - 1)
unfolding backspace
backspace-cell c v = elim (ℕ_discrete c.cur.y 0) [
  | yes top ↦ ground arith
  | no lower ↦
      let up : c.cur.y * c.size.width ≡ (c.cur.y - 1) * c.size.width + c.size.width =
        pred_mul c.cur.y c.size.width lower in
      ground arith
]

-- If the cursor lies on a grid with sides below 2 ^ 31, whose cells are counted line after line:
-- a line feed goes to the start of the next line or of the last one, a backspace goes back by one
-- cell, and from the first cell to the end of the first line, and any other character goes on by
-- one cell, and from the last cell to the start of the last line.
pub put_char-cell :
    (font ch : ℕ) (s : Screen)
    → IsValid s.0
    → let c = s.0 in
      cell (put_char font ch s).0 ≡ (
        if ch == 0x0a
        then min (c.cur.y + 1) (c.size.height - 1) * c.size.width
        else (if ch == 0x08
            then (if cell c == 0 then c.size.width - 1 else cell c - 1)
            else (if ltb (cell c + 1) (c.size.width * c.size.height)
                then cell c + 1
                else (c.size.height - 1) * c.size.width)))
unfolding put_char
put_char-cell font ch (c, m) v = elim (Bool-cases (ch == 0x0a)) [
  | inl line ↦ rw line (newline-cell c v)
  | inr other ↦ elim (Bool-cases (ch == 0x08)) [
    | inl back ↦ rw (other, back) (backspace-cell c v)
    | inr text ↦ rw (other, text) (move_right-cell c v)
  ]
]
