-- ===== src/Act/Keeps.antt =====
-- Invariants of actions: one rule for each way to build an action.
use meshias.Base.{Bool, true, false, Option, none, some}
use meshias.Act.{Act, pure, gets, ◌>>=◌, if_found, choose, when}

-- The action leads from states with the property to states with the property.
pub record Keeps {S : Type 0} {A : Type 0} (P : S → Type 0) (act : Act S A) : Type 0 where
  pub at : (s : S) → P s → P (act s).1

module _ {S : Type 0} {P : S → Type 0} where
  module _ {A : Type 0} where
    pub Keeps-choose :
        (test : Bool) (m n : Act S A) → Keeps P m → Keeps P n → Keeps P (choose test m n)
    unfolding choose
    Keeps-choose true m n kept_first kept_second = kept_first
    Keeps-choose false m n kept_first kept_second = kept_second

    pub Keeps-pure : (result : A) → Keeps P (pure result)
    unfolding pure
    Keeps-pure result = record { at = λ _ holds. holds }

  pub Keeps-when : (test : Bool) (act : Act S Unit) → Keeps P act → Keeps P (when test act)
  unfolding when
  Keeps-when true act kept = kept
  Keeps-when false act kept = Keeps-pure tt

  pub Keeps-gets : {A : Type 0} (read : S → A) → Keeps P (gets read)
  unfolding gets
  Keeps-gets read = record { at = λ _ holds. holds }

  module _ {B : Type 0} {A : Type 0} where
    pub Keeps-if_found :
        (pointer : Option A) (use_it : A → Act S B) (missing : Act S B)
        → ((target : A) → Keeps P (use_it target))
        → Keeps P missing
        → Keeps P (if_found pointer use_it missing)
    unfolding if_found
    Keeps-if_found none use_it missing kept_use kept_missing = kept_missing
    Keeps-if_found (some target) use_it missing kept_use kept_missing = kept_use target

    pub Keeps-bind :
        (first : Act S A) (rest : A → Act S B)
        → Keeps P first
        → ((result : A) → Keeps P (rest result))
        → Keeps P (first >>= rest)
    unfolding ◌>>=◌
    Keeps-bind first rest kept_first kept_rest = record {
      at = λ s holds. (kept_rest (first s).0).at (first s).1 (kept_first.at s holds);
    }

pub ruleset keeps_rules =
    (Keeps-pure, Keeps-gets, Keeps-choose, Keeps-when, Keeps-bind, Keeps-if_found)
