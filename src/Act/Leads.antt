-- ===== src/Act/Leads.antt =====
-- Preconditions and postconditions of actions.
use meshias.Base.{Bool, true, false}
use meshias.Act.{Act, pure, ◌>>=◌, choose}
use meshias.Act.Keeps.{Keeps}

-- From a state with `P`, the action ends with a result and a state that satisfy `Q`.
pub record Leads {S : Type 0} {A : Type 0} (P : S → Type 0) (Q : A → S → Type 0) (act : Act S A)
    : Type 0 where
  pub ends : (s : S) → P s → Q (act s).0 (act s).1

module _ {S A : Type 0} {P : S → Type 0} {Q : A → S → Type 0} where
  pub Leads-choose :
      (b : Bool) (m n : Act S A) → Leads P Q m → Leads P Q n → Leads P Q (choose b m n)
  unfolding choose
  Leads-choose true m n lm ln = lm
  Leads-choose false m n lm ln = ln

  pub Leads-pure : (a : A) → ((s : S) → P s → Q a s) → Leads P Q (pure a)
  unfolding pure
  Leads-pure a h = record { ends = h }

module _ {S A : Type 0} {P : S → Type 0} where
  pub Keeps-Leads : (m : Act S A) → Keeps P m → Leads P (λ _. P) m
  Keeps-Leads m k = record { ends = k.at }

module _ {S A B : Type 0} {P : S → Type 0} {R : A → S → Type 0} {Q : B → S → Type 0} where
  pub Leads-bind :
      (m : Act S A) (f : A → Act S B)
      → Leads P R m
      → ((a : A) → Leads (R a) Q (f a))
      → Leads P Q (m >>= f)
  unfolding ◌>>=◌
  Leads-bind m f lm lf = record { ends = λ s h. (lf (m s).0).ends (m s).1 (lm.ends s h) }

module _ {S A B : Type 0} {P : S → Type 0} {Q : B → S → Type 0} where
  -- A first step that keeps the precondition.
  pub Leads-after :
      (m : Act S A) (f : A → Act S B)
      → Keeps P m
      → ((a : A) → Leads P Q (f a))
      → Leads P Q (m >>= f)
  Leads-after m f k = Leads-bind m f (Keeps-Leads m k)
