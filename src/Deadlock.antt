-- ===== src/Deadlock.antt =====
-- Multithread/deadLockDemo.cpp: main and another, two threads that take two mutexes in opposite
-- orders. A step is one statement of one thread; printf and sleep are left out, since the order of
-- the steps is free.
pub mod Outcomes
pub mod Tests
use linux_websocket.Prelude.{ℕ, ◌+◌, ◌≡◌, Option, none, some}

pub data Thread : Type 0 where
  main another : Thread

-- The globals; a mutex holds the thread that has locked it.
pub record Memory : Type 0 where
  pub a : ℕ
  pub b : ℕ
  pub mutex_a : Option Thread
  pub mutex_b : Option Thread

-- The statement of main that comes next, from its first lock on.
pub data MainPc : Type 0 where
  before_a : MainPc  -- pthread_mutex_lock(&mutex_a)
  bump_a : MainPc  -- ++a
  before_b : MainPc  -- pthread_mutex_lock(&mutex_b)
  add_b : MainPc  -- a += b++
  release_b : MainPc  -- pthread_mutex_unlock(&mutex_b)
  release_a : MainPc  -- pthread_mutex_unlock(&mutex_a)
  joining : MainPc  -- pthread_join
  finished : MainPc

-- The statement of another that comes next.
pub data AnotherPc : Type 0 where
  start_b : AnotherPc  -- pthread_mutex_lock(&mutex_b)
  bump_b : AnotherPc  -- ++b
  wait_a : AnotherPc  -- pthread_mutex_lock(&mutex_a)
  add_a : AnotherPc  -- b += a++
  free_a : AnotherPc  -- pthread_mutex_unlock(&mutex_a)
  free_b : AnotherPc  -- pthread_mutex_unlock(&mutex_b)
  exited : AnotherPc

-- pthread_mutex_lock, by a thread that then goes on; `none` is a thread that waits.
abbrev pub lock {ℓ} : {A : Type ℓ} → Option Thread → A → Option A
lock none next = some next
lock (some t) next = none

abbrev pub join : AnotherPc → Memory → Option (MainPc × Memory)
join exited m = some (finished, m)
join _ m = none

pub main_step : MainPc → AnotherPc → Memory → Option (MainPc × Memory)
main_step before_a o m = lock m.mutex_a (bump_a, record m { mutex_a = some main })
main_step bump_a o m = some (before_b, record m { a = m.a + 1 })
main_step before_b o m = lock m.mutex_b (add_b, record m { mutex_b = some main })
main_step add_b o m = some (release_b, record m { a = m.a + m.b; b = m.b + 1 })
main_step release_b o m = some (release_a, record m { mutex_b = none })
main_step release_a o m = some (joining, record m { mutex_a = none })
main_step joining o m = join o m
main_step finished o m = none

pub another_step : AnotherPc → Memory → Option (AnotherPc × Memory)
another_step start_b m = lock m.mutex_b (bump_b, record m { mutex_b = some another })
another_step bump_b m = some (wait_a, record m { b = m.b + 1 })
another_step wait_a m = lock m.mutex_a (add_a, record m { mutex_a = some another })
another_step add_a m = some (free_a, record m { b = m.b + m.a; a = m.a + 1 })
another_step free_a m = some (free_b, record m { mutex_a = none })
another_step free_b m = some (exited, record m { mutex_b = none })
another_step exited m = none

-- After the two inits and pthread_create.
abbrev pub created : Memory
created = record { a = 0; b = 0; mutex_a = none; mutex_b = none }

-- The states that the two threads reach, in any order of their steps.
pub data Reach : MainPc → AnotherPc → Memory → Type 0 where
  start : Reach before_a start_b created
  by_main :
      {p q : MainPc} {o : AnotherPc} {m n : Memory}
      → Reach p o m
      → main_step p o m ≡ some (q, n)
      → Reach q o n
  by_another :
      {p : MainPc} {o q : AnotherPc} {m n : Memory}
      → Reach p o m
      → another_step o m ≡ some (q, n)
      → Reach p q n
