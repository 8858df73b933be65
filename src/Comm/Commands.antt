-- ===== src/Comm/Commands.antt =====
-- What a command changes in the daemon.
use meshias.Base.{
  ℕ, ◌≡◌, refl, ap, ◌∙◌, Bool, true, false, Option, none, some, List, if◌then◌else◌, arith, length,
  starts_with, ◌+◌, ◌/◌,
}
use meshias.State.{MshData, Event, Statistics, stats_reset}
use meshias.Comm.Format.{get_statistics}
use meshias.Comm.{
  stats_size, msg_kill, msg_restart, msg_show_routes, msg_show_statistics, msg_clean_statistics,
  set_end, clear_stats, reply_to, send_msg, comm_interface_process_command,
}
use meshias.Comm.Sending.{pieces_sent, send_msg-pieces}
use meshias.Act.Keeps.{Keeps}
use meshias.Act.Branch.{choose-both}
use meshias.Act.{pure, gets, choose, ◌>>=◌, after, returned, if_found}

-- No text begins with `cleanstatistics` and another command.
module _ (c : List ℕ) where
  kill_excludes : starts_with msg_kill c ≡ true → starts_with msg_clean_statistics c ≡ false
  unfolding starts_with
  kill_excludes h = ground (arith, h)

  restart_excludes : starts_with msg_restart c ≡ true → starts_with msg_clean_statistics c ≡ false
  unfolding starts_with
  restart_excludes h = ground (arith, h)

  routes_excludes :
      starts_with msg_show_routes c ≡ true → starts_with msg_clean_statistics c ≡ false
  unfolding starts_with
  routes_excludes h = ground (arith, h)

  statistics_excludes :
      starts_with msg_show_statistics c ≡ true → starts_with msg_clean_statistics c ≡ false
  unfolding starts_with
  statistics_excludes h = ground (arith, h)

  not_kill : starts_with msg_show_statistics c ≡ true → starts_with msg_kill c ≡ false
  unfolding starts_with
  not_kill h = ground (arith, h)

  not_restart : starts_with msg_show_statistics c ≡ true → starts_with msg_restart c ≡ false
  unfolding starts_with
  not_restart h = ground (arith, h)

  not_routes : starts_with msg_show_statistics c ≡ true → starts_with msg_show_routes c ≡ false
  unfolding starts_with
  not_routes h = ground (arith, h)

  pub reply-statistics :
      (s : MshData)
      → starts_with msg_show_statistics c ≡ true
      → returned (reply_to c) s ≡ some (get_statistics stats_size s.stats)
  unfolding reply_to choose gets
  reply-statistics s h = rw (not_kill h, not_restart h, not_routes h, h) refl

-- The state but for `trace` after a command: `kill` ends the main loop, and `cleanstatistics` clears
-- the counters.
abbrev pub commanded : List ℕ → MshData → MshData
commanded c s = record s {
  end = if starts_with msg_kill c then true else s.end;
  stats = if starts_with msg_clean_statistics c then stats_reset else s.stats;
}

plain_lem :
    (c : List ℕ) (s : MshData)
    → starts_with msg_kill c ≡ false
    → starts_with msg_clean_statistics c ≡ false
    → s ≡ commanded c s
plain_lem c s h k = rw (h, k) refl

reply_to-commanded : (c : List ℕ) (s : MshData) → after (reply_to c) s ≡ commanded c s
unfolding reply_to ◌>>=◌ pure gets set_end clear_stats
reply_to-commanded c s =
    choose-both _ _ _ s (λ kill. rw (kill, kill_excludes c kill) refl)
      λ no_kill.
        choose-both _ _ _ s (λ h. plain_lem c s no_kill (restart_excludes c h))
          λ _.
            choose-both _ _ _ s (λ h. plain_lem c s no_kill (routes_excludes c h))
              λ _.
                choose-both _ _ _ s (λ h. plain_lem c s no_kill (statistics_excludes c h))
                  λ _.
                    choose-both _ _ _ s (λ clean. rw (no_kill, clean) refl)
                      λ no_clean. plain_lem c s no_kill no_clean

-- The trace after the reply, if there is one.
abbrev pub replied : Option (List ℕ) → List Event → List Event
replied none trace = trace
replied (some text) trace = pieces_sent text ((length text + 1023) / 1024) 0 trace

sends_reply :
    (reply : Option (List ℕ)) (s : MshData)
    → after (if_found reply (λ tosend. send_msg tosend (length tosend)) (pure tt)) s
      ≡ record s { trace = replied reply s.trace }
unfolding if_found pure
sends_reply none s = refl
sends_reply (some text) s = send_msg-pieces text (length text) s

-- A command changes nothing but this: `kill` makes the main loop end, `cleanstatistics` clears the
-- counters, and the reply, if there is one, goes out in whole pieces.
pub process_command-commanded :
    (c : List ℕ) (s : MshData)
    → after (comm_interface_process_command c) s
      ≡ record (commanded c s) { trace = replied (returned (reply_to c) s) s.trace }
unfolding comm_interface_process_command ◌>>=◌
process_command-commanded c s =
    sends_reply (reply_to c s).0 (reply_to c s).1
    ∙ ap (λ (t : MshData). record t { trace = replied (returned (reply_to c) s) t.trace })
        (reply_to-commanded c s)

-- A property that looks at neither `end` nor the counters nor the trace.
module _ {P : MshData → Type 0}
    (blind : (s : MshData) (ended : Bool) (counts : Statistics) (events : List Event)
      → P s
      → P (record s { end = ended; stats = counts; trace = events })) where
  pub command-Keeps : (c : List ℕ) → Keeps P (comm_interface_process_command c)
  command-Keeps c = record { at = λ s h. rw (process_command-commanded c s) (blind s _ _ _ h) }
