-- ===== src/Tools/Answers.antt =====
-- The client and the daemon agree on the commands.
use meshias.Base.{
  ℕ, ◌≡◌, refl, ◌∙◌, Bool, true, false, ◌||◌, Option, none, some, List, starts_with, arith,
}
use meshias.State.{MshData}
use meshias.Comm.{
  msg_kill, msg_restart, msg_show_routes, msg_show_statistics, msg_clean_statistics, reply_to,
}
use meshias.Tools.{commands, among, check_command, is_help_command, is_quit_command, expand}
use meshias.Act.{Act, pure, gets, ◌>>=◌, choose, returned}

-- Is the text a command that the daemon answers?
abbrev pub is_answered : List ℕ → Bool
is_answered c =
    starts_with msg_kill c
    || (starts_with msg_restart c
        || (starts_with msg_show_routes c
            || (starts_with msg_show_statistics c || starts_with msg_clean_statistics c)))

abbrev pub is_some : Option (List ℕ) → Bool
is_some none = false
is_some (some text) = true

replies :
    (b : Bool) (m n : Act MshData (Option (List ℕ))) (s : MshData) {y : Bool}
    → is_some (returned m s) ≡ true
    → is_some (returned n s) ≡ y
    → is_some (returned (choose b m n) s) ≡ (b || y)
unfolding choose
replies true m n s hm hn = hm
replies false m n s hm hn = hn

or_false : (b : Bool) → (b || false) ≡ b
or_false true = refl
or_false false = refl

-- The daemon replies to just these commands.
pub reply_to-answered :
    (c : List ℕ) (s : MshData) → is_some (returned (reply_to c) s) ≡ is_answered c
unfolding reply_to pure gets ◌>>=◌
reply_to-answered c s = replies _ _ _ s refl (
    replies _ _ _ s refl
      (replies _ _ _ s refl (replies _ _ _ s refl (replies _ _ _ s refl refl ∙ or_false _))))

long_forms :
    (is_answered msg_kill ≡ true)
    × (is_answered msg_restart ≡ true)
    × (is_answered msg_show_routes ≡ true)
    × (is_answered msg_show_statistics ≡ true)
    × (is_answered msg_clean_statistics ≡ true)
unfolding starts_with
long_forms = (refl, refl, refl, refl, refl)

expand-answered :
    (c : List ℕ)
    → check_command c ≡ true
    → is_help_command c ≡ false
    → is_quit_command c ≡ false
    → is_answered (expand commands c) ≡ true
unfolding check_command among is_help_command is_quit_command expand
expand-answered c accepted no_help no_quit = ground (arith, accepted, no_help, no_quit, long_forms)

-- A command that the client accepts, and that is neither `help` nor `quit`, is answered by the daemon
-- in any state, once the client has written out its short form.
pub reply_to-expand :
    (c : List ℕ) (s : MshData)
    → check_command c ≡ true
    → is_help_command c ≡ false
    → is_quit_command c ≡ false
    → is_some (returned (reply_to (expand commands c)) s) ≡ true
reply_to-expand c s accepted no_help no_quit =
    reply_to-answered (expand commands c) s ∙ expand-answered c accepted no_help no_quit
