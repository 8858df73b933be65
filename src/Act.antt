-- ===== src/Act.antt =====
-- C functions that read and write the daemon's global data: actions over a state, for `do` blocks.
pub mod Keeps
pub mod Branch
pub mod Leads
use meshias.Base.{Bool, true, false, Option, none, some, if◌then◌else◌}

abbrev pub Act : Type 0 → Type 0 → Type 0
Act S A = S → A × S

module _ {S A : Type 0} where
  unfoldable pub pure : A → Act S A
  pure a s = (a, s)

  unfoldable pub gets : (S → A) → Act S A
  gets f s = (f s, s)

module _ {S : Type 0} where
  unfoldable pub modify : (S → S) → Act S Unit
  modify f s = (tt, f s)

module _ {S A B : Type 0} where
  infixl 10 ◌>>=◌ ◌>>◌
  unfoldable pub ◌>>=◌ : Act S A → (A → Act S B) → Act S B
  unfolding pure gets modify
  ◌>>=◌ m f s = let (a, s') = m s in f a s'

  abbrev pub ◌>>◌ : Act S A → Act S B → Act S B
  m >> n = m >>= λ _. n

-- A pointer that may be null.
module _ {S A B : Type 0} where
  unfoldable pub if_found : Option A → (A → Act S B) → Act S B → Act S B
  if_found (some a) f m = f a
  if_found none f m = m

module _ {S A : Type 0} where
  unfoldable pub choose : Bool → Act S A → Act S A → Act S A
  choose true m n = m
  choose false m n = n

-- A statement guarded by a test.
module _ {S : Type 0} where
  unfoldable pub when : Bool → Act S Unit → Act S Unit
  unfolding pure
  when true m = m
  when false m = pure tt

-- The state after an action, and what it returns.
module _ {S A : Type 0} where
  abbrev pub after : Act S A → S → S
  after m s = (m s).1

  abbrev pub returned : Act S A → S → A
  returned m s = (m s).0
