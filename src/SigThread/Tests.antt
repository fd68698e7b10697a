-- ===== src/SigThread/Tests.antt =====
-- Multithread/threadHandlesAllsigs.cpp: SIGUSR1 comes before main goes on.
use linux_websocket.Prelude.{◌≤◌, ◌≡◌, ◌≢◌, ◌⊎◌, refl, false, [], ◌∷◌}
use linux_websocket.SigThread.{
  Process, sigusr1, sigusr2, killed, exited, sleeps, main_goes, thread_waits, raised, step,
}
use linux_websocket.SigThread.Ends.{never_returns}

abbrev ended : Process
ended = record {
  life = killed sigusr2;
  main = sleeps;
  quit_pending = false;
  quit_raised = 0;
  quit_printed = 0;
  usr1_pending = false;
  usr1_raised = 1;
  usr1_printed = 1;
}

never_returns_example :
    (0 ≤ 0)
    × (1 ≤ 1)
    × (ended.life ≢ exited 0)
    × ((ended.main ≢ sleeps) ⊎ (ended.life ≡ killed sigusr2))
unfolding step
never_returns_example =
    never_returns ended
      (main_goes 0 ∷ main_goes 0 ∷ raised sigusr1 ∷ thread_waits sigusr1 ∷ main_goes 0 ∷ []) refl
