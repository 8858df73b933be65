-- ===== src/Tools.antt =====
-- meshias_daemon/meshias-tools.c: the command line client. Its terminal and its connection are in
-- Tools/Terminal.
pub mod Answers
pub mod Terminal
pub mod Sessions
use meshias.Base.{
  ℕ, Bool, true, false, ◌||◌, Option, none, some, List, [], ◌∷◌, ◌++◌, if◌then◌else◌, codes,
  starts_with, ◌==◌, take,
}
use mathlib.Core.Option
use meshias.Comm.{
  msg_help, msg_quit, msg_kill, msg_restart, msg_show_routes, msg_show_statistics,
  msg_clean_statistics,
}

-- `COMMANDS`, in pairs: the short form and the long one.
abbrev pub commands : List (List ℕ × List ℕ)
commands =
    (codes "0", msg_help)
    ∷ (codes "1", msg_quit)
    ∷ (codes "2", msg_kill)
    ∷ (codes "3", msg_restart)
    ∷ (codes "4", msg_show_routes)
    ∷ (codes "5", msg_show_statistics)
    ∷ (codes "6", msg_clean_statistics)
    ∷ []

-- The loop of `check_command` over both forms.
unfoldable pub among : List (List ℕ × List ℕ) → List ℕ → Bool
among [] command = false
among ((short, long) ∷ rest) command =
    starts_with short command || starts_with long command || among rest command

unfoldable pub check_command : List ℕ → Bool
unfolding among
check_command command = among commands command

unfoldable pub is_help_command : List ℕ → Bool
is_help_command command = starts_with msg_help command || starts_with (codes "0") command

unfoldable pub is_quit_command : List ℕ → Bool
is_quit_command command = starts_with msg_quit command || starts_with (codes "1") command

-- The loop of `send_command`: the first short form that the command begins with stands for its long
-- form.
unfoldable pub expand : List (List ℕ × List ℕ) → List ℕ → List ℕ
expand [] command = command
expand ((short, long) ∷ rest) command =
    if starts_with short command then long else expand rest command

-- `snprintf (buf, bufsize, command)`: the text is a format, in which `%%` stands for one `%`. What comes
-- of the text from any other `%` on is not for the C standard to say, since there is no argument to
-- convert: it is the parameter `conversion`, with none where the program does not go on from there.
unfoldable pub formatted : (List ℕ → Option (List ℕ)) → List ℕ → Option (List ℕ)
formatted conversion [] = some []
formatted conversion (c ∷ []) = if c == 37 then conversion (c ∷ []) else some (c ∷ [])
formatted conversion (c ∷ d ∷ rest) =
    let behind = formatted conversion rest in
    let next = formatted conversion (d ∷ rest) in
    if c == 37
    then (if d == 37
        then Option.map (λ (text : List ℕ). 37 ∷ text) behind
        else conversion (c ∷ d ∷ rest))
    else Option.map (λ (text : List ℕ). c ∷ text) next

-- The text that `send_command` sends.
unfoldable pub send_command : (List ℕ → Option (List ℕ)) → List ℕ → Option (List ℕ)
unfolding expand formatted
send_command conversion command =
    Option.map (take 1023) (formatted conversion (expand commands command))
