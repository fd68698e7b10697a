-- ===== src/Lock/Tests.antt =====
-- Multithread/locker.h: a few threads.
use linux_websocket.Prelude.{◌≡◌, refl, false, [], ◌∷◌}
use linux_websocket.Lock.{Objects, sem, sem_end, locker, locker_end, cond, cond_end}
use linux_websocket.Lock.Lifetimes.{ended, objects_left}
use linux_websocket.Lock.Cond
use linux_websocket.Lock.Cond.Waits.{Counted, waits_signalled}
use linux_websocket.Lock.Cond.Waits

abbrev no_objects : Objects
no_objects = record { sems = 0; mutexes = 0; conds = 0; wild = 0 }

-- pthread_cond_init fails.
objects_left_example :
    (ended (sem no_objects 0) sem_end ≡ no_objects)
    × (ended (locker no_objects 0) locker_end ≡ no_objects)
    × (ended (cond no_objects 0 12) cond_end ≡ record no_objects { mutexes = 1; wild = 1 })
objects_left_example = objects_left no_objects 0 0 12

-- A signal that is lost, a thread that is woken by another, and a third that is blocked.
abbrev one_woken : Cond.Cond
one_woken = record {
  locked = false;
  entering = 0;
  holding = 0;
  blocked = 1;
  woken = 1;
  leaving = 0;
  called = 2;
  returned = 0;
  signalled = 2;
  spurious = 0;
}

waits_signalled_example : Counted one_woken × Waits.Settles one_woken × Waits.Answers one_woken
unfolding Cond.step
waits_signalled_example =
    waits_signalled one_woken
      (Cond.signals ∷ Cond.waits ∷ Cond.locks ∷ Cond.blocks ∷ Cond.waits ∷ Cond.locks ∷ Cond.blocks
        ∷ Cond.signals ∷ [])
      refl
