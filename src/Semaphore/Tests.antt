-- ===== src/Semaphore/Tests.antt =====
-- Multiprocessing/IPC_PRIVATE.cpp: the child is killed while it has the semaphore, and the parent
-- goes on.
use linux_websocket.Prelude.{◌≡◌, ◌+◌, true, false, ◌≢◌, ◌⊎◌, none, refl}
use linux_websocket.Semaphore.{
  Semaphore, child_inside, child_gone, parent_waits, parent_inside, parent_done, removes,
  child_step, child_killed, parent_step, created, Reach, start, by_child, by_signal, by_parent,
}
use linux_websocket.Semaphore.Safety.{Ended, semaphore_turns}

abbrev taken : Semaphore
taken = record { there = true; value = 0; child_adj = 1; parent_adj = 0 }

reach_taken : Reach child_inside parent_waits taken
unfolding child_step
reach_taken = by_child {t = taken} start refl

reach_end : Reach child_gone parent_done (record created { there = false; value = 0 })
unfolding child_killed parent_step
reach_end =
    by_parent {t = record created { there = false; value = 0 }}
      (by_parent {t = created}
        (by_parent {t = created}
          (by_parent {t = record { there = true; value = 0; child_adj = 0; parent_adj = 1 }}
            (by_signal {t = created} reach_taken refl) refl)
          refl)
        refl)
      refl

semaphore_turns_example :
    ((child_inside ≢ child_inside) ⊎ (parent_waits ≢ parent_inside))
    × ((child_step child_inside taken ≢ none)
        ⊎ ((parent_step parent_waits child_inside taken ≢ none)
            ⊎ Ended child_inside parent_waits taken))
    × ((parent_waits ≡ parent_done) ⊎ ((true ≡ true) × (0 + 1 + 0 ≡ 1)))
    × ((parent_waits ≢ removes) ⊎ (child_inside ≡ child_gone))
semaphore_turns_example = semaphore_turns child_inside parent_waits taken reach_taken
