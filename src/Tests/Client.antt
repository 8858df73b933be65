-- ===== src/Tests/Client.antt =====
-- Runs of the theorems about the command line client.
use meshias.Base.{
  zero, suc, pos, none, leb, if◌then◌else◌, ℕ, ◌≡◌, refl, true, Option, some, List, [], ◌∷◌, ◌++◌,
  codes, starts_with, length,
}
use meshias.Comm.{c_string, msg_show_routes}
use meshias.Tools.{
  among, check_command, is_help_command, is_quit_command, expand, formatted, send_command,
}
use meshias.Tools.Terminal.{
  quitted, client_loop, get_command, skip_space, scan_word, client_step, print_reply, exchange,
  printed, client_main, usage,
}
use meshias.Connection.{
  ConnectCalls, unix_socket, tcp_socket, AllocResult, null, allocated, unix_connection, host_size,
  meshias_connection_alloc, meshias_connection_alloc_unix,
}
use meshias.Connection.Scanning.{connection_alloc-tcp}
use meshias.Tools.Sessions.{typed}

-- The program breaks off where a conversion has no argument.
abbrev no_conversion : List ℕ → Option (List ℕ)
no_conversion text = none

-- A line that is no command, one that asks for help, three commands, one with two `%`, and the end.
abbrev words : List (List ℕ)
words =
    codes "elp" ∷ codes "help" ∷ codes "4" ∷ codes "showroutes" ∷ codes "kill%%" ∷ codes "quit" ∷ []

-- The session on the terminal: the first character is lost, so `help` is no command.
session_test :
    client_loop no_conversion 7 (typed 104 words)
    ≡ (msg_show_routes ∷ msg_show_routes ∷ codes "kill%" ∷ [], quitted)
unfolding client_loop get_command skip_space scan_word client_step c_string among check_command
    is_help_command is_quit_command expand formatted send_command starts_with
session_test = refl

abbrev fill : ℕ → List ℕ
fill zero = []
fill (suc n) = 65 ∷ fill n

-- 1024 characters.
abbrev full : List ℕ
full = fill 1024

abbrev connects : ConnectCalls
connects = record { socket = pos 3; resolved = λ host. some 16777343; connect = pos 0 }

connection_alloc-tcp_example :
    meshias_connection_alloc (λ port. some 2654) connects tcp_socket (codes "localhost:2654") ≡ (
      if leb host_size (length (scan_word (skip_space (codes "localhost:2654"))).0)
      then AllocResult.overrun
      else null)
connection_alloc-tcp_example =
    connection_alloc-tcp (λ port. some 2654) connects (codes "localhost:2654")

-- A UNIX socket is connected.
unix_test :
    meshias_connection_alloc (λ port. none) connects unix_socket (codes "/tmp/meshias")
    ≡ allocated (unix_connection (pos 3) (codes "/tmp/meshias"))
unfolding meshias_connection_alloc meshias_connection_alloc_unix
unix_test = refl

-- A reply that fills the buffer: a NUL is written behind it.
reply_test :
    exchange
      (record { socket = pos 3; connect = pos 0; send = pos 4; pieces = codes "ACK" ∷ full ∷ [] })
    ≡ printed (record { text = codes "ACK" ++ full; past_end = true })
unfolding exchange print_reply c_string
reply_test = refl

main_test : client_main no_conversion 1 true 9 (codes "xquit") ≡ usage
unfolding client_main
main_test = refl
