-- ===== src/Lock.antt =====
-- Multithread/locker.h: the constructors and destructors of sem, locker and cond.
pub mod Cond
pub mod Lifetimes
pub mod Locker
pub mod Tests
use linux_websocket.Prelude.{ℕ, ◌+◌, ◌-◌, ◌==◌, if◌then◌else◌}

-- The objects of the library that are initialised and not destroyed, and the calls so far that
-- destroy one that is not initialised.
pub record Objects : Type 0 where
  pub sems : ℕ
  pub mutexes : ℕ
  pub conds : ℕ
  pub wild : ℕ

-- What a constructor leaves.
pub data Made : Type 0 where
  constructed : Objects → Made
  thrown : Objects → Made

-- `ret` is what sem_init returns.
pub sem : Objects → (ret : ℕ) → Made
sem o ret = if ret == 0 then constructed (record o { sems = o.sems + 1 }) else thrown o

pub sem_end : Objects → Objects
sem_end o = record o { sems = o.sems - 1 }

pub locker : Objects → (ret : ℕ) → Made
locker o ret = if ret == 0 then constructed (record o { mutexes = o.mutexes + 1 }) else thrown o

pub locker_end : Objects → Objects
locker_end o = record o { mutexes = o.mutexes - 1 }

-- `m` and `c` are what pthread_mutex_init and pthread_cond_init return. Where the second fails, it
-- is the condition that is destroyed.
pub cond : Objects → (m c : ℕ) → Made
cond o m c =
    if m == 0
    then (let locked : Objects = record o { mutexes = o.mutexes + 1 } in
        if c == 0
        then constructed (record locked { conds = o.conds + 1 })
        else thrown (record locked { wild = o.wild + 1 }))
    else thrown o

pub cond_end : Objects → Objects
cond_end o = record o { mutexes = o.mutexes - 1; conds = o.conds - 1 }
