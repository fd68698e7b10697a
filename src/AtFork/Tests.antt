-- ===== src/AtFork/Tests.antt =====
-- Multithread/multithreadForkDeadlock.cpp: main forks between two turns of the other thread.
use linux_websocket.Prelude.{◌≢◌, ◌⊎◌, refl, some, none, true}
use linux_websocket.AtFork.{
  main, another, locking, holding, prepared, forked, waiting, in_handler, World, main_step,
  child_step, another_step, created, Reach, start, by_another, by_main,
}
use linux_websocket.AtFork.Safety.{IsAbsent, at_fork_progress}

abbrev just_forked : World
just_forked = record {
  another_pc = locking;
  main_pc = forked;
  child_pc = in_handler;
  mutex = some main;
  child_mutex = some main;
}

reach_forked : Reach true just_forked
unfolding main_step another_step
reach_forked =
    by_main {s = record created { main_pc = prepared; mutex = some main }}
      (by_main {s = created}
        (by_another {s = record created { another_pc = holding; mutex = some another }}
          (by_another {s = created} start refl) refl)
        refl)
      refl

at_fork_progress_example :
    (IsAbsent in_handler ⊎ (child_step true in_handler just_forked ≢ none))
    × ((forked ≢ waiting)
        ⊎ ((main_step true forked just_forked ≢ none)
            ⊎ (child_step true in_handler just_forked ≢ none)))
at_fork_progress_example = at_fork_progress just_forked reach_forked
