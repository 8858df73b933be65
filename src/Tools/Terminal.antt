-- ===== src/Tools/Terminal.antt =====
-- `main`, `get_command` and the connection of `send_command` in meshias_daemon/meshias-tools.c. The
-- terminal's input is the list of its characters; what the calls of the sockets return is given.
use meshias.Base.{
  ℕ, zero, suc, ◌==◌, leb, Bool, false, ◌&&◌, ◌||◌, not, Option, none, some, List, [], ◌∷◌, ◌++◌,
  if◌then◌else◌, ℤ, pos, negsuc, ltb_ℤ, eqb_ℤ, length,
}
use meshias.Comm.{c_string}
use meshias.Tools.{check_command, is_help_command, is_quit_command, send_command}

-- What `scanf` takes for white space.
abbrev pub is_space : ℕ → Bool
is_space c = c == 32 || (leb 9 c && leb c 13)

-- `getchar`: the character is not used.
abbrev pub getchar : List ℕ → List ℕ
getchar [] = []
getchar (c ∷ rest) = rest

unfoldable pub skip_space : List ℕ → List ℕ
skip_space [] = []
skip_space (c ∷ rest) = let more = skip_space rest in if is_space c then more else c ∷ rest

-- The characters before the first white space, and those from there on.
unfoldable pub scan_word : List ℕ → List ℕ × List ℕ
scan_word [] = ([], [])
scan_word (c ∷ rest) =
    let (word, more) = scan_word rest in if is_space c then ([], c ∷ rest) else (c ∷ word, more)

abbrev pub command_size : ℕ
command_size = 128

-- What `get_command` comes to: a command and the input behind it, a write past the end of the array,
-- or rounds that go on.
pub data Command : Type 0 where
  entered : List ℕ → List ℕ → Command
  overrun : Command
  asking : Command

-- The loop of `get_command`. At the end of the input `scanf` reads nothing, and the command stays empty.
unfoldable pub get_command : ℕ → List ℕ → Command
unfolding skip_space scan_word c_string
get_command zero input = asking
get_command (suc fuel) input =
    let (word, rest) = scan_word (skip_space (getchar input)) in
    let again = get_command fuel rest in
    if leb command_size (length word)
    then overrun
    else if check_command (c_string word)
    then entered (c_string word) rest
    else again

-- How the client ends, or that it still asks for a command, and the texts that it sent.
pub data Ending : Type 0 where
  quitted overran broke_off still_asking : Ending

abbrev pub Session : Type 0
Session = List (List ℕ) × Ending

-- A command is sent before the rest of the session, which there is none of if the format is where the
-- program breaks off.
abbrev pub sending : Option (List ℕ) → Session → Session
sending none more = ([], broke_off)
sending (some text) more = (text ∷ more.0, more.1)

-- One round of the loop of `main`, with the command that was read.
unfoldable pub client_step : (List ℕ → Option (List ℕ)) → (List ℕ → Session) → Command → Session
client_step conversion continue (entered command rest) =
    let more = continue rest in
    if is_help_command command
    then more
    else if is_quit_command command
    then ([], quitted)
    else sending (send_command conversion command) more
client_step conversion continue overrun = ([], overran)
client_step conversion continue asking = ([], still_asking)

-- Every round of `get_command` takes a character if there is one, so its fuel is enough.
unfoldable pub client_loop : (List ℕ → Option (List ℕ)) → ℕ → List ℕ → Session
unfolding get_command client_step
client_loop conversion zero input = ([], still_asking)
client_loop conversion (suc fuel) input =
    client_step conversion (client_loop conversion fuel) (get_command (suc (length input)) input)

pub data ClientExit : Type 0 where
  usage unknown_host : ClientExit
  talked : Session → ClientExit

-- `main`; `resolved` is what `gethostbyname` finds.
unfoldable pub client_main : (List ℕ → Option (List ℕ)) → ℕ → Bool → ℕ → List ℕ → ClientExit
unfolding client_loop
client_main conversion argc resolved fuel input =
    if not (argc == 2)
    then usage
    else if not resolved
    then unknown_host
    else talked (client_loop conversion fuel input)

-- What the calls of a connection return, and the pieces that `recv` gives before it gives none.
pub record Link : Type 0 where
  pub socket : ℤ
  pub connect : ℤ
  pub send : ℤ
  pub pieces : List (List ℕ)

abbrev pub reply_size : ℕ
reply_size = 1024

-- What is printed, and whether a NUL was written behind the buffer.
pub record Printed : Type 0 where
  pub text : List ℕ
  pub past_end : Bool

unfoldable pub print_reply : List (List ℕ) → Printed
unfolding c_string
print_reply [] = record { text = []; past_end = false }
print_reply (piece ∷ rest) =
    let more = print_reply rest in
    record {
      text = c_string piece ++ more.text;
      past_end = leb reply_size (length piece) || more.past_end;
    }

pub data Answer : Type 0 where
  no_socket no_connection not_sent : Answer
  printed : Printed → Answer

-- The rest of `send_command`.
unfoldable pub exchange : Link → Answer
unfolding print_reply
exchange link =
    if eqb_ℤ link.socket (negsuc 0)
    then no_socket
    else if eqb_ℤ link.connect (negsuc 0)
    then no_connection
    else if ltb_ℤ link.send (pos 0)
    then not_sent
    else printed (print_reply link.pieces)
