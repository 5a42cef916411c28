-- ===== src/Canserver/Bridge/Tests.antt =====
-- A channel of the bridge with a coder of two bytes for a frame.
use win_can_utils.Canserver.Pipes.{
  Attempt, after_error, write_round, keep_if, next_round, write_loop, read_client, read_clients,
  config_reply,
}
use win_can_utils.Base.{ℕ, ◌≡◌, refl, List, [], ◌∷◌, false, Option, none, some}
use win_can_utils.Io.{ok, err, broken_pipe, other}
use win_can_utils.Canserver.Bridge.{
  Coder, try_send, with_length, message, send_if, forward_frames, BridgeEvent, polls, takes, poll,
  take_one, bridge_step, bridge_run, decoded, forward_lines,
}
use win_can_utils.Canserver.Bridge.Queue.{idle}
use win_can_utils.Canserver.Bridge.Messages.{IsDelivered, bridge_run-IsDelivered}

abbrev read_pair : List ℕ → Option (ℕ × ℕ)
read_pair [] = none
read_pair (a ∷ []) = none
read_pair (a ∷ b ∷ rest) = some (b, 2)

abbrev pairs : Coder ℕ
pairs = record { encode = λ n. some (0 ∷ n ∷ []); decode = read_pair }

abbrev events : List (BridgeEvent pairs)
events = polls (ok (7 ∷ 8 ∷ [])) ∷ takes ∷ polls (err other) ∷ polls (ok (9 ∷ [])) ∷ takes ∷ []

bridge_run-IsDelivered_example : IsDelivered pairs events (bridge_run pairs events (idle pairs))
bridge_run-IsDelivered_example = bridge_run-IsDelivered pairs events

after :
    bridge_run pairs events (idle pairs)
    ≡ record { queue = []; written = (2 ∷ 0 ∷ 7 ∷ []) ∷ (2 ∷ 0 ∷ 8 ∷ []) ∷ []; polling = false }
unfolding bridge_run bridge_step poll take_one forward_frames send_if try_send message with_length
after = refl

-- Two messages of a client that come in one read: the second is lost.
merged : forward_lines pairs ((0 ∷ 7 ∷ 0 ∷ 8 ∷ []) ∷ (0 ∷ 9 ∷ []) ∷ []) ≡ 7 ∷ 9 ∷ []
unfolding forward_lines decoded
merged = refl

-- A message that comes in two reads is lost.
cut : forward_lines pairs ((0 ∷ []) ∷ (7 ∷ []) ∷ []) ≡ []
unfolding forward_lines decoded
cut = refl

abbrev goes : Attempt
goes = record { written = ok tt; shut_down = ok tt; connected = ok tt; flushed = ok tt }

-- The message whose write finds the client gone is not written to the next client.
client_gone :
    write_loop
      ((1 ∷ [], goes) ∷ (2 ∷ [], record goes { written = err broken_pipe }) ∷ (3 ∷ [], goes) ∷ [])
    ≡ ((1 ∷ []) ∷ (3 ∷ []) ∷ [], ok tt)
unfolding write_loop next_round keep_if write_round after_error
client_gone = refl

two_clients :
    read_clients (ok (ok (1 ∷ []) ∷ ok [] ∷ []) ∷ ok (ok (2 ∷ []) ∷ err other ∷ []) ∷ [])
    ≡ ((1 ∷ []) ∷ (2 ∷ []) ∷ [], err other)
unfolding read_clients read_client
two_clients = refl

small_config : config_reply (1 ∷ []) ≡ ok (1 ∷ [])
unfolding config_reply
small_config = refl
