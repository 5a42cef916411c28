-- ===== src/Canserver/Pipes.antt =====
-- thread_manager_async.rs: the tasks that serve the three pipes of a channel. A pipe is given by what
-- its operations result in.
use win_can_utils.Base.{ℕ, ltb, if◌then◌else◌, Bool, true, false, List, [], ◌∷◌, ◌++◌, length}
use win_can_utils.Io.{
  IoResult, ok, err, ◌>>=◌, ErrorKind, broken_pipe, other, invalid_data, would_block, not_connected,
  not_found, interrupted, invalid_input, timed_out, unexpected_eof,
}
use win_can_utils.Canserver.Bridge.Queue.{IsPart, nothing, keeps, drops}

abbrev pub PipeMessage : Type 0
PipeMessage = List ℕ

-- What the operations result in when a message is written: `connected` is a new server for the pipe,
-- with a client.
pub record Attempt : Type 0 where
  pub written : IoResult {0} Unit
  pub shut_down : IoResult {0} Unit
  pub connected : IoResult {0} Unit
  pub flushed : IoResult {0} Unit

unfoldable pub after_error : ErrorKind → Attempt → IoResult {0} Unit
after_error broken_pipe a = a.shut_down >>= (λ _. a.connected >>= (λ _. a.flushed))
after_error would_block a = err would_block
after_error not_connected a = err not_connected
after_error not_found a = err not_found
after_error interrupted a = err interrupted
after_error other a = err other
after_error invalid_input a = err invalid_input
after_error invalid_data a = err invalid_data
after_error timed_out a = err timed_out
after_error unexpected_eof a = err unexpected_eof

-- A round of `start_ipc_writer`: whether the message has been written, and how it goes on.
unfoldable pub write_round : IoResult {0} Unit → Attempt → Bool × IoResult {0} Unit
write_round (ok _) a = (true, a.flushed)
write_round (err kind) a = (false, after_error kind a)

unfoldable pub keep_if : Bool → PipeMessage → List PipeMessage → List PipeMessage
keep_if true msg msgs = msg ∷ msgs
keep_if false msg msgs = msgs

unfoldable pub next_round :
    Bool × IoResult {0} Unit
    → PipeMessage
    → List PipeMessage × IoResult {0} Unit
    → List PipeMessage × IoResult {0} Unit
next_round (written, err kind) msg later = (keep_if written msg [], err kind)
next_round (written, ok _) msg later = (keep_if written msg later.0, later.1)

-- `start_ipc_writer`: the messages that have been written, and its result.
unfoldable pub write_loop : List (PipeMessage × Attempt) → List PipeMessage × IoResult {0} Unit
write_loop [] = ([], ok tt)
write_loop ((msg, a) ∷ attempts) = next_round (write_round a.written a) msg (write_loop attempts)

-- `start_ipc_reader` with one client: each read is handed on as it comes.
unfoldable pub read_client : List (IoResult PipeMessage) → List PipeMessage × IoResult {0} Unit
read_client [] = ([], ok tt)
read_client (err kind ∷ reads) = ([], err kind)
read_client (ok [] ∷ reads) = ([], ok tt)
read_client (ok (b ∷ bytes) ∷ reads) =
    let later = read_client reads in ((b ∷ bytes) ∷ later.0, later.1)

-- The clients one after the other, each with its connection's result.
unfoldable pub read_clients :
    List (IoResult (List (IoResult PipeMessage))) → List PipeMessage × IoResult {0} Unit
read_clients [] = ([], ok tt)
read_clients (err kind ∷ clients) = ([], err kind)
read_clients (ok reads ∷ clients) =
    let later = read_clients clients in
    let client = read_client reads in
    elim client.1 [ err kind ↦ (client.0, err kind) | ok _ ↦ (client.0 ++ later.0, later.1) ]

-- What `start_ipc_config_handler` writes of a serialized configuration.
unfoldable pub config_reply : PipeMessage → IoResult PipeMessage
config_reply bytes = if ltb 255 (length bytes) then err invalid_data else ok bytes

messages : List (PipeMessage × Attempt) → List PipeMessage
messages [] = []
messages ((msg, a) ∷ attempts) = msg ∷ messages attempts

none_written : (attempts : List (PipeMessage × Attempt)) → IsPart [] (messages attempts)
unfolding messages
none_written [] = nothing
none_written ((msg, a) ∷ attempts) = drops msg (none_written attempts)

keep_if-IsPart :
    (written : Bool) (msg : PipeMessage) (msgs rest : List PipeMessage)
    → IsPart msgs rest
    → IsPart (keep_if written msg msgs) (msg ∷ rest)
unfolding keep_if
keep_if-IsPart true msg msgs rest part = keeps msg part
keep_if-IsPart false msg msgs rest part = drops msg part

next_round-IsPart :
    (round : Bool × IoResult {0} Unit) (msg : PipeMessage)
    (later : List PipeMessage × IoResult {0} Unit) (attempts : List (PipeMessage × Attempt))
    → IsPart later.0 (messages attempts)
    → IsPart (next_round round msg later).0 (msg ∷ messages attempts)
unfolding next_round
next_round-IsPart (written, err kind) msg later attempts part =
    keep_if-IsPart written msg [] (messages attempts) (none_written attempts)
next_round-IsPart (written, ok _) msg later attempts part =
    keep_if-IsPart written msg later.0 (messages attempts) part

-- The messages written are the given ones in order, some of them left out.
write_loop-IsPart :
    (attempts : List (PipeMessage × Attempt)) → IsPart (write_loop attempts).0 (messages attempts)
unfolding write_loop messages
write_loop-IsPart [] = nothing
write_loop-IsPart ((msg, a) ∷ attempts) =
    next_round-IsPart (write_round a.written a) msg (write_loop attempts) attempts
      (write_loop-IsPart attempts)
