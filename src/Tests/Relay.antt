-- ===== src/Tests/Relay.antt =====
-- Live sessions, the store in memory, the registry and polls at concrete inputs.
use aken.Base.Map
use aken.Base.{
  ◌≡◌, ◌≢◌, refl, some, none, List, [], ◌∷◌, arith, true, false, bytes_eq, if◌then◌else◌,
}
use aken.Relay.Live.{LiveSession, new_live, answer, post, join_live, notify, deliver}
use aken.Relay.Live.History.{
  Watched, Event, joins, posts, polls, start, step, run, observe, BothInOrder, run_in_order,
}
use aken.Relay.Live.Retry.{post_again}
use aken.Relay.Memory.{MemoryStore, memory_store}
use aken.Relay.Registry.{State, get_live, has_expired}
use aken.Relay.Registry
use aken.Relay.Registry.Swept.{get_live-sweep}
use aken.Relay.Poll.{Turn, changed, timed_out, still_waiting, poll, poll_round}
use aken.Relay.Poll.Rounds.{replacement_kept, poll_ends, Untouched, after}
use aken.Tests.Samples.{id, info, envelope, blob_session, state_with}

-- Two jobs are posted, the first one twice; then both are fetched.
abbrev history : List Event
history =
    joins info
    ∷ posts (envelope 1) false
    ∷ posts (envelope 1) false
    ∷ posts (envelope 2) false
    ∷ polls "jobs"
    ∷ []

fetched : (run 2 (start 100) history).jobs_out ≡ envelope 1 ∷ envelope 2 ∷ []
unfolding run step observe post join_live deliver notify
fetched = refl

run_in_order_example : BothInOrder 2 (run 2 (start 100) history)
run_in_order_example = run_in_order 2 100 history (omega arith)

abbrev joined_session : LiveSession
joined_session = record (new_live 100) { joined = some info }

abbrev posted_session : LiveSession
posted_session = record joined_session {
  results = envelope 1 ∷ [];
  next_result = 2;
  last_result = some (envelope 1);
  changed = 1;
}

posts_once : post joined_session (envelope 1) true 2 ≡ (answer 202 "", posted_session)
unfolding post notify
posts_once = refl

post_again_example : post posted_session (envelope 1) true 2 ≡ (answer 202 "", posted_session)
post_again_example = post_again joined_session posted_session (envelope 1) true 2 posts_once

abbrev watched : Watched
watched = record { live = joined_session; jobs_out = []; results_out = [] }

abbrev gone_session : LiveSession
gone_session = record (new_live 100) { gone = true }

-- A live session of another identifier than the poll's, in its place.
abbrev replaced : State MemoryStore
replaced = record (state_with blob_session) { sessions = Map.insert Map.empty id 1; free = 2 }

get_live-sweep_example : get_live (Registry.sweep memory_store replaced 100) id ≡ (
    if has_expired memory_store replaced 100 (get_live replaced id)
    then none
    else get_live replaced id)
get_live-sweep_example = get_live-sweep memory_store 100 replaced id

replacement_kept_example :
    Untouched memory_store id 0 "jobs" replaced
      (after replaced (poll_round memory_store id 0 "jobs" replaced 100 false))
unfolding Map.get Map.insert Map.empty
replacement_kept_example = replacement_kept memory_store id 0 "jobs" replaced 100 false refl

abbrev waits : Turn MemoryStore
waits = record { state = replaced; now = 5; client_gone = false; wake = changed }

abbrev times_out : Turn MemoryStore
times_out = record waits { wake = timed_out }

poll_ends_example :
    poll memory_store id 0 "jobs" 30 false (waits ∷ times_out ∷ waits ∷ []) ≢ still_waiting
poll_ends_example = poll_ends memory_store id 0 "jobs" 30 false (waits ∷ []) times_out waits [] refl
