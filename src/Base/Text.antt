-- ===== src/Base/Text.antt =====
-- Text as the codes of its characters, and decimal numbers in it.
use Prim.Native.Nat.{ℕ, zero, suc, ◌+◌, ◌-◌, ◌*◌, ◌/◌, ◌%◌, ◌^◌, ◌≤◌, ◌<◌}
use Prim.Native.Char.{code}
use Prim.Native.String.{String}
use mathlib.Core.Path.{◌≡◌}
use mathlib.Core.Bool.{Bool, true, false, ◌&&◌}
use mathlib.Core.List.{List, [], ◌∷◌}
use native.Mathlib.Omega.{arith}
use meshias.Base.Tests.{leb, ltb, ◌==◌, if◌then◌else◌}
use meshias.Base.Lists.{length}

abbrev pub codes : String → List ℕ
codes String.[] = []
codes (String.◌∷◌ c s) = code c ∷ codes s

-- `strncmp(text, word, strlen(word)) == 0`, for a word without NULs.
unfoldable pub starts_with : (word text : List ℕ) → Bool
starts_with [] text = true
starts_with (c ∷ word) [] = false
starts_with (c ∷ word) (d ∷ text) = (c == d) && starts_with word text

-- The decimal digits of a number below 10 ^ n, before `rest`.
unfoldable pub digits : (n x : ℕ) (rest : List ℕ) → List ℕ
digits zero x rest = rest
digits (suc n) x rest =
    let more = digits n (x / 10) ((48 + x % 10) ∷ rest) in
    if ltb x 10 then (48 + x % 10) ∷ rest else more

abbrev pub is_digit : ℕ → Bool
is_digit c = leb 48 c && leb c 57

-- The number at the front of a text whose digits so far say `x`, and what follows it.
unfoldable pub read_digits : ℕ → List ℕ → ℕ × List ℕ
read_digits x [] = (x, [])
read_digits x (c ∷ text) =
    let more = read_digits (x * 10 + (c - 48)) text in if is_digit c then more else (x, c ∷ text)

pub read_digits-digits :
    (n x : ℕ) (rest : List ℕ) → x < 10 ^ n → read_digits 0 (digits n x rest) ≡ read_digits x rest
unfolding digits read_digits
read_digits-digits zero x rest h = ground arith
read_digits-digits (suc n) x rest h =
    ground (arith, read_digits-digits n (x / 10) ((48 + x % 10) ∷ rest))

pub length-digits : (n x : ℕ) (rest : List ℕ) → length (digits n x rest) ≤ n + length rest
unfolding digits
length-digits zero x rest = omega arith
length-digits (suc n) x rest = ground (arith, length-digits n (x / 10) ((48 + x % 10) ∷ rest))
