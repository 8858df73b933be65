-- ===== src/Act/Branch.antt =====
-- What a guarded action leaves behind, by its two branches.
use meshias.Base.{Bool, true, false, Option, none, some, ◌≡◌, refl, if◌then◌else◌}
use meshias.Act.{Act, pure, choose, if_found, when}

module _ {S A B : Type 0} where
  pub choose-if :
      (b : Bool) (m n : Act S A) (s : S) (view : S → B) {x y : B}
      → (b ≡ true → view (m s).1 ≡ x)
      → (b ≡ false → view (n s).1 ≡ y)
      → view (choose b m n s).1 ≡ (if b then x else y)
  unfolding choose
  choose-if true m n s view on_true on_false = on_true refl
  choose-if false m n s view on_true on_false = on_false refl

module _ {S A B : Type 0} where
  pub found-if :
      (o : Option A) (f : A → Act S B) (m : Act S B) (s : S) (Q : S → Type 0)
      → ((a : A) → o ≡ some a → Q (f a s).1)
      → (o ≡ none → Q (m s).1)
      → Q (if_found o f m s).1
  unfolding if_found
  found-if (some a) f m s Q on_some on_none = on_some a refl
  found-if none f m s Q on_some on_none = on_none refl

module _ {S : Type 0} where
  pub when-true : (b : Bool) (m : Act S Unit) → b ≡ true → when b m ≡ m
  unfolding when
  when-true true m h = refl
  when-true false m h = cc

  pub when-false : (b : Bool) (m : Act S Unit) → b ≡ false → when b m ≡ pure tt
  unfolding when
  when-false true m h = cc
  when-false false m h = refl

module _ {S A : Type 0} where
  pub choose-both :
      (b : Bool) (m n : Act S A) (s : S) {x : S}
      → (b ≡ true → (m s).1 ≡ x)
      → (b ≡ false → (n s).1 ≡ x)
      → (choose b m n s).1 ≡ x
  unfolding choose
  choose-both true m n s on_true on_false = on_true refl
  choose-both false m n s on_true on_false = on_false refl
