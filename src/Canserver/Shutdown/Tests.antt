-- ===== src/Canserver/Shutdown/Tests.antt =====
-- The end of canserver's main, with handles that are whether the output has been received.
use win_can_utils.Base.{
  ◌≡◌, refl, ap, ◌⊎◌, inl, Bool, true, false, if◌then◌else◌, List, [], ◌∷◌, some, none,
}
use win_can_utils.Io.{ok, err, other}
use win_can_utils.Canserver.Init.{CanDriver}
use win_can_utils.Canserver.Shutdown.{
  JoinHandle, finished, unfinished, panicked, IsOnce, ctrl_c, incoming_ended, outgoing_ended,
  returns, panics, exits, after_select, and_join, abort_both, close_after, close_driver, shut_down,
  waits, run_main, run_main-closes,
}

abbrev flags : JoinHandle Bool
flags = record {
  select = λ task. true;
  abort = λ task. task;
  join = λ task. if task then panicked else finished;
  holds_driver = λ task. false;
}

abbrev counted : CanDriver (List Unit)
counted = record {
  close_channel = λ d. (ok tt, tt ∷ d);
  set_bitrate = λ bitrate d. (ok tt, d);
  enable_timestamp = λ d. (ok tt, d);
  open_channel = λ d. (ok tt, d);
}

flags-received : (task : Bool) → task ≡ true → flags.join task ≡ panicked
flags-received task task≡ = ap flags.join task≡

flags-awaited :
    (task : Bool) → task ≡ false → (flags.join task ≡ finished) ⊎ (flags.join task ≡ unfinished)
flags-awaited task task≡ = inl (ap flags.join task≡)

abbrev flags_once : IsOnce flags
flags_once = record {
  received = λ task. task;
  received-select = λ task. refl;
  received-abort = λ task. refl;
  join-received = flags-received;
  join-awaited = flags-awaited;
  finished-holds = λ task ends. refl;
}

run_main-closes_example :
    (run_main flags counted (ok []) ctrl_c (false, false) ≡ (returns, some (tt ∷ [])))
    × (run_main flags counted (ok []) incoming_ended (false, false) ≡ (panics, some []))
    × (run_main flags counted (ok []) outgoing_ended (false, false) ≡ (panics, some []))
run_main-closes_example = run_main-closes flags counted flags_once false false refl refl refl []

-- Tasks that do not end in time keep main from the panic.
abbrev stuck : JoinHandle Bool
stuck = record flags { join = λ task. if task then panicked else unfinished }

late : run_main stuck counted (ok []) outgoing_ended (false, false) ≡ (returns, some (tt ∷ []))
unfolding run_main shut_down after_select abort_both and_join close_after close_driver
late = refl

-- One of them holds the lock of the driver for good.
abbrev holding : JoinHandle Bool
holding = record stuck { holds_driver = λ task. true }

stays : run_main holding counted (ok []) ctrl_c (false, false) ≡ (waits, some [])
unfolding run_main shut_down after_select abort_both and_join close_after close_driver
stays = refl

no_driver : run_main flags counted (err other) ctrl_c (false, false) ≡ (exits 1, none)
unfolding run_main
no_driver = refl
