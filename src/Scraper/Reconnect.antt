-- ===== src/Scraper/Reconnect.antt =====
-- internal/scraper/scraper_helpers.go: the supervision of a stream, and the name of its server.
pub mod Laws
use network_enforcer.Common.{
  String, List, [], ◌∷◌, Option, none, some, Bool, true, false, not, ◌||◌, ◌==◌, string_eq,
  if◌then◌else◌,
}

-- errors.Is of the two errors of a context
abbrev pub is_context_cancellation : Bool → Bool → Bool
is_context_cancellation canceled deadline_exceeded = canceled || deadline_exceeded

-- `split_host_port` is net.SplitHostPort, of which the host is read; `none` is an error
unfoldable pub resolve_tls_server_name : (String → Option String) → String → String → Option String
resolve_tls_server_name split_host_port endpoint override =
    if not (override == "") then some override else split_host_port endpoint

-- whether a failed attempt is tried again within its round
unfoldable pub retry_if : Bool → Bool → Bool
retry_if cancellation successful_connection =
    if cancellation || successful_connection then false else true

-- What one round of at most five attempts by the retry library ends with: whether its error is a
-- cancellation, whether the context is done, whether the last attempt had connected, and whether the
-- context is done during the wait that follows.
pub record Round : Type 0 where
  pub cancellation : Bool
  pub context_done : Bool
  pub successful_connection : Bool
  pub done_while_waiting : Bool

pub data Supervision : Type 0 where
  running : Supervision
  shut_down : Supervision
  gave_up : Supervision

-- `running` after the rounds that there have been
unfoldable pub run_stream_with_reconnect : List Round → Supervision
run_stream_with_reconnect [] = running
run_stream_with_reconnect (round ∷ rounds) =
    let rest = run_stream_with_reconnect rounds in
    if round.cancellation || round.context_done
    then shut_down
    else if not round.successful_connection
    then gave_up
    else if round.done_while_waiting
    then shut_down
    else rest
