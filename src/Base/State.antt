-- ===== src/Base/State.antt =====
-- Code over a state: what it returns and the state that it leaves.
abbrev pub Action : Type 0 → Type 0 → Type 0
Action S A = S → A × S

abbrev pub pure : {S A : Type 0} → A → Action S A
pure a s = (a, s)

infixl 5 ◌>>=◌ ◌>>◌
abbrev pub ◌>>=◌ : {S A B : Type 0} → Action S A → (A → Action S B) → Action S B
◌>>=◌ m f s = let (a, s') = m s in f a s'

abbrev pub ◌>>◌ : {S B : Type 0} → Action S (Unit {0}) → Action S B → Action S B
m >> k = m >>= λ _. k

abbrev pub modify : {S : Type 0} → (S → S) → Action S (Unit {0})
modify f s = (tt, f s)
