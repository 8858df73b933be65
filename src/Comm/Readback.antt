-- ===== src/Comm/Readback.antt =====
-- The printed lines say what was printed: a reader that is independent of the printer gets the numbers
-- back.
use mathlib.Core.Option
use meshias.Base.{
  ℕ, zero, suc, ◌+◌, ◌-◌, ◌%◌, ◌/◌, ◌^◌, ◌<◌, ◌≡◌, ◌==◌, refl, ◌∙◌, ap, false, Option, none, some,
  List, [], ◌∷◌, if◌then◌else◌, ltb, ℤ, pos, negsuc, arith, All, Bool-cases, inl, inr, length,
  is_digit, digits, read_digits, read_digits-digits,
}
use meshias.Comm.Format.{print_int, print_line}

-- A decimal number with its sign, and what follows it.
unfoldable pub read_int : List ℕ → ℤ × List ℕ
read_int [] = (pos 0, [])
read_int (c ∷ text) =
    if c == 45
    then (let (n, rest) = read_digits 0 text in (negsuc (n - 1), rest))
    else (let (n, rest) = read_digits 0 (c ∷ text) in (pos n, rest))

-- What follows the last number of a line, and what follows another one.
abbrev line_end : ℤ × List ℕ → Option (List ℤ)
line_end (x, []) = none
line_end (x, c ∷ rest) = if c == 10 then some (x ∷ []) else none

abbrev line_more : ℤ × List ℕ → (List ℕ → Option (List ℤ)) → Option (List ℤ)
line_more (x, []) others = none
line_more (x, c ∷ rest) others =
    if c == 35 then Option.map (λ (xs : List ℤ). x ∷ xs) (others rest) else none

-- A line of so many numbers, with `#` between them.
unfoldable pub read_line : ℕ → List ℕ → Option (List ℤ)
unfolding read_int
read_line zero text = none
read_line (suc zero) text = line_end (read_int text)
read_line (suc (suc n)) text = line_more (read_int text) (read_line (suc n))

-- What `print_int` can print in ten digits.
abbrev pub Printable : ℤ → Type 0
Printable (pos n) = n < 10 ^ 10
Printable (negsuc n) = suc n < 10 ^ 10

digit_first :
    (n x d : ℕ) (rest : List ℕ)
    → d < 10
    → (e : ℕ) × (more : List ℕ) × (digits n x ((48 + d) ∷ rest) ≡ (48 + e) ∷ more)
unfolding digits
digit_first zero x d rest h = (d, rest, refl)
digit_first (suc n) x d rest h = elim (Bool-cases (ltb x 10)) [
  | inl last ↦ (x % 10, (48 + d) ∷ rest, rw last refl)
  | inr more ↦ rw more (digit_first n (x / 10) (x % 10) ((48 + d) ∷ rest) (omega arith))
]

ten_digits_first :
    (x : ℕ) (rest : List ℕ) → (e : ℕ) × (more : List ℕ) × (digits 10 x rest ≡ (48 + e) ∷ more)
unfolding digits
ten_digits_first x rest = elim (Bool-cases (ltb x 10)) [
  | inl last ↦ (x % 10, rest, rw last refl)
  | inr more ↦ rw more (digit_first 9 (x / 10) (x % 10) rest (omega arith))
]

read_int-digit :
    (e : ℕ) (more : List ℕ)
    → read_int ((48 + e) ∷ more)
      ≡ (let (n, rest) = read_digits 0 ((48 + e) ∷ more) in (pos n, rest))
unfolding read_int
read_int-digit e more = ground arith

-- A reading stops at a character that is no digit.
read_digits-stop :
    (x c : ℕ) (rest : List ℕ) → is_digit c ≡ false → read_digits x (c ∷ rest) ≡ (x, c ∷ rest)
unfolding read_digits
read_digits-stop x c rest h = rw h refl

read_number :
    (x c : ℕ) (rest : List ℕ)
    → x < 10 ^ 10
    → is_digit c ≡ false
    → read_digits 0 (digits 10 x (c ∷ rest)) ≡ (x, c ∷ rest)
read_number x c rest h stop = read_digits-digits 10 x (c ∷ rest) h ∙ read_digits-stop x c rest stop

read_int-print_int :
    (x : ℤ) (c : ℕ) (rest : List ℕ)
    → Printable x
    → is_digit c ≡ false
    → read_int (print_int x (c ∷ rest)) ≡ (x, c ∷ rest)
unfolding print_int
read_int-print_int (pos n) c rest h stop =
    let (e, more, first) = ten_digits_first n (c ∷ rest) in
    let number = read_number n c rest h stop in
    rw first (read_int-digit e more ∙ ap (λ (r : ℕ × List ℕ). (pos r.0, r.1)) (rw first at number))
read_int-print_int (negsuc n) c rest h stop =
    unfold read_int in rw (read_number (suc n) c rest h stop) (ground arith)

-- Reading a printed line of at least one number gives back the numbers.
pub read_line-print_line :
    (x : ℤ) (more : List ℤ)
    → All Printable (x ∷ more)
    → read_line (length (x ∷ more)) (print_line (x ∷ more)) ≡ some (x ∷ more)
unfolding read_line print_line
read_line-print_line x [] h = ap line_end (read_int-print_int x 10 [] h.0 refl)
read_line-print_line x (y ∷ more) h =
    ap (λ r. line_more r (read_line (length (y ∷ more))))
      (read_int-print_int x 35 (print_line (y ∷ more)) h.0 refl)
    ∙ ap (Option.map (λ (xs : List ℤ). x ∷ xs)) (read_line-print_line y more h.1)
