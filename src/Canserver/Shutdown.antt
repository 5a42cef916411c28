-- ===== src/Canserver/Shutdown.antt =====
-- bin/canserver.rs, the end of `main`: the wait for Ctrl-C or for one of its two tasks, and the closing
-- of the driver. The handles of the tasks are tokio's, parameters with what they promise.
mod Tests
use win_can_utils.Base.{
  ℕ, ◌≡◌, refl, ◌∙◌, ap, ◌⊎◌, inl, inr, ◌||◌, if◌then◌else◌, Bool, true, false, Option, none, some,
}
use win_can_utils.Io.{IoResult, ok, err}
use win_can_utils.Canserver.Init.{CanDriver}

-- What awaiting a task comes to, at the latest after the time that is left for it.
pub data Joined : Type 0 where
  finished : Joined
  unfinished : Joined
  panicked : Joined

-- `JoinHandle`: the handle when `select!` has received the task's output by it, after `abort`, and
-- what awaiting it comes to; `holds_driver` tells whether the task holds the lock of the driver and does
-- not give it back.
pub record JoinHandle (H : Type 0) : Type 0 where
  pub select : H → H
  pub abort : H → H
  pub join : H → Joined
  pub holds_driver : H → Bool

-- What ends the wait of `main`.
pub data Ending : Type 0 where
  ctrl_c : Ending
  incoming_ended : Ending
  outgoing_ended : Ending

-- How the process ends: `main` returns or panics, or `exit` with a code; or `main` waits for the lock of
-- the driver for ever.
pub data Exit : Type 0 where
  returns : Exit
  panics : Exit
  waits : Exit
  exits : ℕ → Exit

module _ {H D : Type 0} (handle : JoinHandle H) (driver : CanDriver D) where
  open handle use {select, abort, join, holds_driver}
  open driver use {close_channel}

  unfoldable pub after_select : Ending → H × H → H × H
  after_select ctrl_c tasks = tasks
  after_select incoming_ended (task_in, task_out) = (select task_in, task_out)
  after_select outgoing_ended (task_in, task_out) = (task_in, select task_out)

  -- The second task is awaited after the first has ended.
  unfoldable pub and_join : Joined → H → Joined
  and_join finished task = join task
  and_join unfinished task = unfinished
  and_join panicked task = panicked

  unfoldable pub abort_both : H × H → Joined
  unfolding and_join
  abort_both (task_in, task_out) = and_join (join (abort task_in)) (abort task_out)

  -- `driver.lock().await` waits for a task that holds the lock.
  unfoldable pub close_driver : H × H → D → Exit × Option D
  close_driver (task_in, task_out) d =
      if holds_driver (abort task_in) || holds_driver (abort task_out)
      then (waits, some d)
      else (returns, some (close_channel d).1)

  -- A panic leaves `main` before the driver is closed; a task that has not ended in time does not.
  unfoldable pub close_after : Joined → H × H → D → Exit × Option D
  unfolding close_driver
  close_after panicked tasks d = (panics, some d)
  close_after finished tasks d = close_driver tasks d
  close_after unfinished tasks d = close_driver tasks d

  unfoldable pub shut_down : H × H → D → Exit × Option D
  unfolding abort_both close_after
  shut_down tasks d = close_after (abort_both tasks) tasks d

  -- `main` with what `initialize_driver` results in and what ends the wait; the driver that it leaves.
  unfoldable pub run_main : IoResult D → Ending → H × H → Exit × Option D
  unfolding after_select shut_down
  run_main (err kind) ending tasks = (exits 1, none)
  run_main (ok d) ending tasks = shut_down (after_select ending tasks) d

-- What a `JoinHandle` promises: the output is received once, awaiting it again panics, and a task that
-- has ended has given its locks back.
pub record IsOnce {H : Type 0} (handle : JoinHandle H) : Type 0 where
  pub received : H → Bool
  pub received-select : (task : H) → received (handle.select task) ≡ true
  pub received-abort : (task : H) → received (handle.abort task) ≡ received task
  pub join-received : (task : H) → received task ≡ true → handle.join task ≡ panicked
  pub join-awaited :
      (task : H)
      → received task ≡ false
      → (handle.join task ≡ finished) ⊎ (handle.join task ≡ unfinished)
  pub finished-holds : (task : H) → handle.join task ≡ finished → handle.holds_driver task ≡ false

module _ {H D : Type 0} (handle : JoinHandle H) (driver : CanDriver D) (once : IsOnce handle) where
  open once use {
    received, received-select, received-abort, join-received, join-awaited, finished-holds,
  }

  join-selected : (task : H) → handle.join (handle.abort (handle.select task)) ≡ panicked
  join-selected task = join-received _ (received-abort (handle.select task) ∙ received-select task)

  close_after-awaited :
      {j : Joined} (tasks : H × H) (d : D)
      → (j ≡ finished) ⊎ (j ≡ unfinished)
      → close_after handle driver j tasks d ≡ close_driver handle driver tasks d
  unfolding close_after
  close_after-awaited tasks d (inl j≡) = ap (λ j. close_after handle driver j tasks d) j≡
  close_after-awaited tasks d (inr j≡) = ap (λ j. close_after handle driver j tasks d) j≡

  -- When the task that feeds the driver ends in time once it is aborted, and no output has been
  -- received before: after Ctrl-C main returns with the driver closed, or, if the task that polls the
  -- driver is not ended by the abort and keeps the lock of the driver, waits for that lock; after the
  -- end of one of the tasks main panics, because it awaits that task again, and the driver is left
  -- unclosed.
  pub run_main-closes :
      (task_in task_out : H)
      → received task_in ≡ false
      → received task_out ≡ false
      → handle.join (handle.abort task_in) ≡ finished
      → (d : D)
      → (run_main handle driver (ok d) ctrl_c (task_in, task_out) ≡ (
          if handle.holds_driver (handle.abort task_out)
          then (waits, some d)
          else (returns, some (driver.close_channel d).1)))
        × (run_main handle driver (ok d) incoming_ended (task_in, task_out) ≡ (panics, some d))
        × (run_main handle driver (ok d) outgoing_ended (task_in, task_out) ≡ (panics, some d))
  unfolding run_main shut_down after_select abort_both and_join close_after close_driver
  run_main-closes task_in task_out in_left out_left ends d = (
    rw (ends) (
        close_after-awaited (task_in, task_out) d
          (join-awaited _ (received-abort task_out ∙ out_left))
        ∙ ap
            (λ held.
              if held || handle.holds_driver (handle.abort task_out)
              then (waits, some d)
              else (returns, some (driver.close_channel d).1))
            (finished-holds _ ends)),
    rw (join-selected task_in) refl,
    rw (ends, join-selected task_out) refl,
  )

  -- When both tasks end in time once they are aborted, main closes the driver after Ctrl-C.
  run_main-ctrl_c :
      (task_in task_out : H)
      → received task_in ≡ false
      → received task_out ≡ false
      → handle.join (handle.abort task_in) ≡ finished
      → handle.join (handle.abort task_out) ≡ finished
      → (d : D)
      → run_main handle driver (ok d) ctrl_c (task_in, task_out)
        ≡ (returns, some (driver.close_channel d).1)
  run_main-ctrl_c task_in task_out in_left out_left ends ends' d =
      (run_main-closes task_in task_out in_left out_left ends d).0
      ∙ rw (finished-holds _ ends') refl
