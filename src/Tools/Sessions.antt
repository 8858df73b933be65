-- ===== src/Tools/Sessions.antt =====
-- What the client makes of the words that are typed at its prompt.
use meshias.Base.{
  ℕ, zero, suc, ◌<◌, ◌≤◌, leb, false, Option, List, [], ◌∷◌, ◌++◌, ◌≡◌, refl, sym, ap, ◌∙◌,
  if◌then◌else◌, arith, length, All, starts_with,
}
use meshias.Comm.{c_string}
use meshias.Tools.{among, check_command, is_help_command, is_quit_command, send_command}
use meshias.Tools.Terminal.{
  is_space, getchar, skip_space, scan_word, command_size, Command, entered, overrun, asking,
  get_command, quitted, still_asking, sending, Session,
}

-- Some characters that are no white space, and that fit into the array.
pub record Word (word : List ℕ) : Type 0 where
  pub some : 0 < length word
  pub solid : All (λ c. is_space c ≡ false) word
  pub fits : length word < command_size

-- Words that are typed with a new line between two of them, behind a first character.
abbrev pub typed : ℕ → List (List ℕ) → List ℕ
typed c [] = []
typed c (word ∷ words) = c ∷ (word ++ typed 10 words)

-- The session as the words tell it: a word that is no command is passed over, `help` sends nothing,
-- `quit` ends, and every other command is sent, unless the program breaks off at its format.
abbrev pub told : (List ℕ → Option (List ℕ)) → List (List ℕ) → Session
told conversion [] = ([], still_asking)
told conversion (word ∷ words) =
    let command = c_string word in
    let more = told conversion words in
    if check_command command
    then (if is_help_command command
        then more
        else if is_quit_command command
        then ([], quitted)
        else sending (send_command conversion command) more)
    else more

-- The first of the words that is a command.
abbrev first_command : List (List ℕ) → Command
first_command [] = asking
first_command (word ∷ words) =
    let next = first_command words in
    if check_command (c_string word) then entered (c_string word) (typed 10 words) else next

-- At the end of the input the client asks for ever.
get_command-nil : (fuel : ℕ) → get_command fuel [] ≡ asking
unfolding get_command skip_space scan_word c_string check_command among starts_with
get_command-nil zero = refl
get_command-nil (suc fuel) = get_command-nil fuel

-- Reading takes characters off the input.
length-skip_space : (input : List ℕ) → length (skip_space input) ≤ length input
unfolding skip_space
length-skip_space [] = omega arith
length-skip_space (c ∷ rest) = ground (arith, length-skip_space rest)

length-scan_word : (input : List ℕ) → length (scan_word input).1 ≤ length input
unfolding scan_word
length-scan_word [] = omega arith
length-scan_word (c ∷ rest) = ground (arith, length-scan_word rest)

length-read :
    (c : ℕ) (input : List ℕ)
    → length (scan_word (skip_space (getchar (c ∷ input)))).1 ≤ length input
length-read c input = omega (arith, length-scan_word (skip_space input), length-skip_space input)

-- Where the fuel of `get_command` is more than the number of the characters, it does not matter.
get_command-enough :
    (m n : ℕ) (input : List ℕ)
    → length input < m
    → length input < n
    → get_command m input ≡ get_command n input
unfolding get_command
get_command-enough zero n input h k = absurd (omega (arith, h))
get_command-enough (suc m) zero input h k = absurd (omega (arith, k))
get_command-enough (suc m) (suc n) [] h k = get_command-nil (suc m) ∙ sym (get_command-nil (suc n))
get_command-enough (suc m) (suc n) (c ∷ input) h k =
    let (word, rest) = scan_word (skip_space (getchar (c ∷ input))) in
    ap
      (λ again.
        if leb command_size (length word)
        then overrun
        else if check_command (c_string word)
        then entered (c_string word) rest
        else again)
      (get_command-enough m n rest (omega (arith, h, length-read c input))
        (omega (arith, k, length-read c input)))
