-- ===== src/Semaphore.antt =====
-- Multiprocessing/IPC_PRIVATE.cpp: a parent and its child that take turns by a semaphore of value
-- 1. A step is one call of one process, or a signal that kills the child; printf and sleep are left
-- out. All calls of pv have SEM_UNDO.
pub mod Safety
pub mod Tests
use linux_websocket.Prelude.{
  Bool, true, false, if◌then◌else◌, ℕ, zero, suc, ◌+◌, ◌-◌, ◌≡◌, Option, none, some,
}

-- Whether the semaphore exists, its value, and for each process what the kernel adds to it when the
-- process ends.
pub record Semaphore : Type 0 where
  pub there : Bool
  pub value : ℕ
  pub child_adj : ℕ
  pub parent_adj : ℕ

pub data ChildPc : Type 0 where
  child_waits : ChildPc  -- pv(sem_id, -1)
  child_inside : ChildPc  -- the seconds with the semaphore, and pv(sem_id, 1)
  child_exits : ChildPc  -- exit(0)
  child_gone : ChildPc

pub data ParentPc : Type 0 where
  parent_waits : ParentPc  -- pv(sem_id, -1)
  parent_inside : ParentPc  -- the seconds with the semaphore, and pv(sem_id, 1)
  waits_pid : ParentPc  -- waitpid(id, NULL, 0)
  removes : ParentPc  -- semctl(sem_id, 0, IPC_RMID, sem_un)
  parent_done : ParentPc

-- pv(sem_id, -1): the value goes down by one, or the process waits. Where the semaphore is removed,
-- semop fails, which pv does not look at.
pub pv_take : (value adj : ℕ) → Option (ℕ × ℕ)
pv_take zero adj = none
pv_take (suc n) adj = some (n, adj + 1)

-- pv(sem_id, 1).
pub pv_give : (value adj : ℕ) → ℕ × ℕ
pv_give value adj = (value + 1, adj - 1)

abbrev child_took : Semaphore → Option (ℕ × ℕ) → Option (ChildPc × Semaphore)
child_took s none = none
child_took s (some (v, adj)) = some (child_inside, record s { value = v; child_adj = adj })

abbrev parent_took : Semaphore → Option (ℕ × ℕ) → Option (ParentPc × Semaphore)
parent_took s none = none
parent_took s (some (v, adj)) = some (parent_inside, record s { value = v; parent_adj = adj })

-- The end of the child, by exit or by a signal: the kernel undoes what it has taken.
pub child_ends : Semaphore → ChildPc × Semaphore
child_ends s = (child_gone, record s { value = s.value + s.child_adj; child_adj = 0 })

pub child_step : ChildPc → Semaphore → Option (ChildPc × Semaphore)
unfolding pv_take pv_give child_ends
child_step child_waits s =
    if s.there then child_took s (pv_take s.value s.child_adj) else some (child_inside, s)
child_step child_inside s =
    let (v, adj) = pv_give s.value s.child_adj in
    some (child_exits, if s.there then record s { value = v; child_adj = adj } else s)
child_step child_exits s = some (child_ends s)
child_step child_gone s = none

-- A signal kills the child, wherever it stands.
pub child_killed : ChildPc → Semaphore → Option (ChildPc × Semaphore)
unfolding child_ends
child_killed child_gone s = none
child_killed _ s = some (child_ends s)

abbrev wait_child : ChildPc → Semaphore → Option (ParentPc × Semaphore)
wait_child child_gone s = some (removes, s)
wait_child _ s = none

pub parent_step : ParentPc → ChildPc → Semaphore → Option (ParentPc × Semaphore)
unfolding pv_take pv_give
parent_step parent_waits c s =
    if s.there then parent_took s (pv_take s.value s.parent_adj) else some (parent_inside, s)
parent_step parent_inside c s =
    let (v, adj) = pv_give s.value s.parent_adj in
    some (waits_pid, if s.there then record s { value = v; parent_adj = adj } else s)
parent_step waits_pid c s = wait_child c s
parent_step removes c s = some (parent_done, record s { there = false; value = 0 })
parent_step parent_done c s = none

-- After semctl(sem_id, 0, SETVAL, 1) and a fork that works.
abbrev pub created : Semaphore
created = record { there = true; value = 1; child_adj = 0; parent_adj = 0 }

-- The states that the processes reach, in any order of their steps.
pub data Reach : ChildPc → ParentPc → Semaphore → Type 0 where
  start : Reach child_waits parent_waits created
  by_child :
      {c d : ChildPc} {p : ParentPc} {s t : Semaphore}
      → Reach c p s
      → child_step c s ≡ some (d, t)
      → Reach d p t
  by_signal :
      {c d : ChildPc} {p : ParentPc} {s t : Semaphore}
      → Reach c p s
      → child_killed c s ≡ some (d, t)
      → Reach d p t
  by_parent :
      {c : ChildPc} {p q : ParentPc} {s t : Semaphore}
      → Reach c p s
      → parent_step p c s ≡ some (q, t)
      → Reach c q t
