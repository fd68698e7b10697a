-- ===== src/Deadlock/Tests.antt =====
-- Multithread/deadLockDemo.cpp: each thread takes its first mutex before the other takes its
-- second.
use linux_websocket.Prelude.{◌⊎◌, refl, none, some}
use linux_websocket.Deadlock.{
  main, another, before_b, wait_a, Memory, main_step, another_step, Reach, start, by_main,
  by_another,
}
use linux_websocket.Deadlock.Outcomes.{shape, Deadlocked, Serial, no_step_left}

abbrev crossed : Memory
crossed = shape 1 1 (some main) (some another)

reach_crossed : Reach before_b wait_a crossed
unfolding main_step another_step
reach_crossed =
    by_another {n = crossed}
      (by_main {n = shape 1 0 (some main) (some another)}
        (by_another {n = shape 0 0 (some main) (some another)}
          (by_main {n = shape 0 0 (some main) none} start refl) refl)
        refl)
      refl

no_step_left_example : Deadlocked before_b wait_a crossed ⊎ Serial before_b wait_a crossed
unfolding main_step another_step
no_step_left_example = no_step_left before_b wait_a crossed reach_crossed refl refl
