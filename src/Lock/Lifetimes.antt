-- ===== src/Lock/Lifetimes.antt =====
-- Multithread/locker.h: what objects the three classes leave behind.
use linux_websocket.Prelude.{ℕ, ◌+◌, ◌≡◌, not, ◌&&◌, ◌==◌, if◌then◌else◌, arith}
use linux_websocket.Lock.{
  Objects, Made, constructed, thrown, sem, sem_end, locker, locker_end, cond, cond_end,
}

-- The object is used and destroyed, where there is one.
abbrev pub ended : Made → (Objects → Objects) → Objects
ended (constructed o) end = end o
ended (thrown o) end = o

-- An object of sem or of locker that is constructed and destroyed, or whose constructor throws,
-- leaves everything as it was, and so does one of cond, but for the case that pthread_mutex_init
-- works and pthread_cond_init fails: then a mutex is left, and a condition was destroyed that is
-- not initialised.
pub objects_left :
    (o : Objects) (ret m c : ℕ)
    → (ended (sem o ret) sem_end ≡ o)
      × (ended (locker o ret) locker_end ≡ o)
      × (ended (cond o m c) cond_end ≡ (
          if (m == 0) && not (c == 0)
          then record o { mutexes = o.mutexes + 1; wild = o.wild + 1 }
          else o))
unfolding sem sem_end locker locker_end cond cond_end
objects_left o ret m c = (ground arith, ground arith, ground arith)
