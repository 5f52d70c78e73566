-- ===== src/Command/Echo.antt =====
-- command.cpp: what Echo prints.
use seccamp_os.Base.{
  ℕ, suc, ◌+◌, ◌-◌, ◌≡◌, refl, sym, ap, ◌∙◌, arith, List, [], ◌∷◌, ◌++◌, append_assoc, append-nil,
  length, length-append, ltb, true,
}
use seccamp_os.Command.{argument, echo_rest, echo}
use seccamp_os.Command.Effects.{Printed, Machine, Outcome, print, bind_done}

-- The words with a space between each two of them.
abbrev pub spaced : List (List ℕ) → List Printed
spaced [] = []
spaced (word ∷ []) = Printed.text word ∷ []
spaced (word ∷ other ∷ words) = Printed.text word ∷ Printed.char b' ' ∷ spaced (other ∷ words)

-- The words with a space before each of them.
abbrev each : List (List ℕ) → List Printed
each [] = []
each (word ∷ words) = Printed.char b' ' ∷ Printed.text word ∷ each words

spaced-each :
    (word : List ℕ) (words : List (List ℕ)) → spaced (word ∷ words) ≡ Printed.text word ∷ each words
spaced-each word [] = refl
spaced-each word (other ∷ words) =
    ap (λ t. Printed.text word ∷ Printed.char b' ' ∷ t) (spaced-each other words)

abbrev pub printing : {S : Type 0} → List Printed → Machine S → Machine S
printing ps w = record w { printed = w.printed ++ ps }

pub printing-append :
    {S : Type 0} (ps qs : List Printed) (w : Machine S)
    → printing qs (printing ps w) ≡ printing (ps ++ qs) w
printing-append ps qs w = ap (λ t. record w { printed = t }) (append_assoc w.printed ps qs)

get_or-append :
    (pre : List (List ℕ)) (word : List ℕ) (words : List (List ℕ))
    → argument (pre ++ (word ∷ words)) (length pre) ≡ word
get_or-append [] word words = refl
get_or-append (p ∷ pre) word words = get_or-append pre word words

shift :
    (pre words : List (List ℕ)) (word : List ℕ)
    → (pre ++ (word ∷ [])) ++ words ≡ pre ++ (word ∷ words)
shift pre words word = append_assoc pre (word ∷ []) words

module _ {S : Type 0} where
  echo_rest_lem :
      (pre words : List (List ℕ)) (w : Machine S)
      → echo_rest (pre ++ words) (length words) (length pre) w
        ≡ Outcome.done (tt, printing (each words) w)
  unfolding echo_rest
  echo_rest_lem pre [] w =
      ap (λ t. Outcome.done (tt, record w { printed = t })) (sym (append-nil w.printed))
  echo_rest_lem pre (word ∷ words) w =
      let spaced_word = printing (Printed.text word ∷ []) (printing (Printed.char b' ' ∷ []) w) in
      let rest = echo_rest_lem (pre ++ (word ∷ [])) words spaced_word in
      let count : length (pre ++ (word ∷ [])) ≡ length pre + 1 =
        omega (arith, length-append pre (word ∷ [])) in
      rw (get_or-append pre word words) (rw (shift pre words word, count) at rest)
      ∙ ap (λ t. Outcome.done (tt, t))
          (printing-append (Printed.text word ∷ []) (each words)
              (printing (Printed.char b' ' ∷ []) w)
            ∙ printing-append (Printed.char b' ' ∷ []) (Printed.text word ∷ each words) w)

  -- `Echo` prints its arguments but the first with a space between each two of them, and a line
  -- feed.
  pub echo_lem :
      (name : List ℕ) (args : List (List ℕ)) (w : Machine S)
      → echo (length (name ∷ args)) (name ∷ args) w
        ≡ Outcome.done (tt, printing (spaced args ++ (Printed.char 0x0a ∷ [])) w)
  unfolding echo echo_rest
  echo_lem name [] w = refl
  echo_lem name (word ∷ args) w =
      let many : ltb 1 (suc (suc (length args))) ≡ true = ground arith in
      let rounds : suc (suc (length args)) - 2 ≡ length args = omega arith in
      rw (many, rounds)
        (bind_done (echo_rest (name ∷ word ∷ args) (length args) 2) (λ _. print (Printed.char 0x0a))
            (printing (Printed.text word ∷ []) w)
            (echo_rest_lem (name ∷ word ∷ []) args (printing (Printed.text word ∷ []) w))
          ∙ rw (spaced-each word args) (
              ap (λ t. Outcome.done (tt, t))
                (ap (λ t. printing (Printed.char 0x0a ∷ []) t)
                    (printing-append (Printed.text word ∷ []) (each args) w)
                  ∙ printing-append (Printed.text word ∷ each args) (Printed.char 0x0a ∷ []) w)))
