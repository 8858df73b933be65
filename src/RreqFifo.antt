-- ===== src/RreqFifo.antt =====
-- meshias_daemon/rreq_fifo.c: the route requests seen or sent, the newest first. The alarm callback,
-- which sends a request again, is in Logic.
use meshias.Base.{
  ℕ, ◌==◌, leb, Bool, false, ◌&&◌, ◌||◌, not, Option, none, some, List, [], ◌∷◌, if◌then◌else◌, ℤ,
  pos, negsuc, ltb_ℤ,
}
use meshias.Time.{set_alarm_time}
use meshias.Config.{path_discovery_time, binary_exponential_backoff_time}
use meshias.Alarm.{rreq_alarm}
use meshias.State.{MshData, RreqEntry, new_ptr, set_alarm, clear_alarm}
use meshias.Act.{Act, pure, gets, ◌>>=◌, ◌>>◌, if_found}

unfoldable pub list_add : RreqEntry → Act MshData Unit
list_add entry s = (tt, record s { rreq_queue = entry ∷ s.rreq_queue })

unfoldable pub remove_entry : ℕ → List RreqEntry → List RreqEntry
remove_entry p [] = []
remove_entry p (entry ∷ rest) = if entry.ptr == p then rest else entry ∷ remove_entry p rest

unfoldable pub list_del : ℕ → Act MshData Unit
unfolding remove_entry
list_del p s = (tt, record s { rreq_queue = remove_entry p s.rreq_queue })

unfoldable pub rreq_fifo_entry_delete : ℕ → Act MshData Unit
rreq_fifo_entry_delete p = do clear_alarm (rreq_alarm p); list_del p

unfoldable pub rreq_fifo_push : ℕ → ℕ → Act MshData Unit
rreq_fifo_push rreq_id dst = do
  p ← new_ptr
  set_alarm (rreq_alarm p) (set_alarm_time path_discovery_time)
  list_add (record { ptr = p; rreq_id = rreq_id; dst = dst; prev_tries = negsuc 0 })

unfoldable pub rreq_fifo_push_owned : ℕ → ℕ → ℤ → Act MshData Unit
rreq_fifo_push_owned rreq_id dst prev_tries = do
  p ← new_ptr
  set_alarm (rreq_alarm p) (set_alarm_time (binary_exponential_backoff_time prev_tries))
  list_add (record { ptr = p; rreq_id = rreq_id; dst = dst; prev_tries = prev_tries })

unfoldable pub rreq_fifo_contains : List RreqEntry → ℕ → ℕ → Bool
rreq_fifo_contains [] rreq_id dst = false
rreq_fifo_contains (entry ∷ rest) rreq_id dst =
    (entry.rreq_id == rreq_id && entry.dst == dst) || rreq_fifo_contains rest rreq_id dst

unfoldable pub rreq_fifo_waiting_response_for : List RreqEntry → ℕ → Bool
rreq_fifo_waiting_response_for [] dst = false
rreq_fifo_waiting_response_for (entry ∷ rest) dst =
    (not (ltb_ℤ entry.prev_tries (pos 0)) && entry.dst == dst)
    || rreq_fifo_waiting_response_for rest dst

-- The entry that `rreq_fifo_del` removes.
unfoldable pub find_answered : List RreqEntry → ℕ → ℕ → Option RreqEntry
find_answered [] rreq_id dst = none
find_answered (entry ∷ rest) rreq_id dst =
    if leb entry.rreq_id rreq_id && entry.dst == dst
    then some entry
    else find_answered rest rreq_id dst

unfoldable pub rreq_fifo_del : ℕ → ℕ → Act MshData Unit
unfolding find_answered
rreq_fifo_del rreq_id dst = do
  found ← gets (λ s. find_answered s.rreq_queue rreq_id dst)
  if_found found (λ entry. rreq_fifo_entry_delete entry.ptr) (pure tt)

-- `rreq_fifo_delete`: each entry in turn
unfoldable pub delete_entries : List RreqEntry → Act MshData Unit
delete_entries [] = pure tt
delete_entries (entry ∷ rest) = do rreq_fifo_entry_delete entry.ptr; delete_entries rest

unfoldable pub rreq_fifo_delete : Act MshData Unit
unfolding delete_entries
rreq_fifo_delete = do queue ← gets (λ s. s.rreq_queue); delete_entries queue
