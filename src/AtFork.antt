-- ===== src/AtFork.antt =====
-- Multithread/multithreadForkDeadlock.cpp: main forks while another thread takes and gives back a
-- mutex again and again. A step is one call of one thread; printf and sleep are left out, and fork
-- works. With `registered` the handlers of pthread_atfork are in place, as in the program.
pub mod Safety
pub mod Tests
use linux_websocket.Prelude.{◌≡◌, Bool, true, false, Option, none, some}

pub data Thread : Type 0 where
  main another : Thread

-- A mutex, with the thread that has locked it.
abbrev pub Mutex : Type 0
Mutex = Option Thread

pub data AnotherPc : Type 0 where
  locking : AnotherPc  -- pthread_mutex_lock(&mutex)
  holding : AnotherPc  -- pthread_mutex_unlock(&mutex)

pub data MainPc : Type 0 where
  before_fork : MainPc  -- the handler prepare
  prepared : MainPc  -- fork itself
  forked : MainPc  -- the handler infork
  waiting : MainPc  -- wait(NULL)
  joining : MainPc  -- pthread_join(id, NULL)

-- The child process has one thread, the copy of main, and a copy of the mutex.
pub data ChildPc : Type 0 where
  not_yet : ChildPc
  in_handler : ChildPc  -- the handler infork
  child_locks : ChildPc  -- pthread_mutex_lock(&mutex)
  child_holds : ChildPc  -- pthread_mutex_unlock(&mutex)
  child_exited : ChildPc

pub record World : Type 0 where
  pub another_pc : AnotherPc
  pub main_pc : MainPc
  pub child_pc : ChildPc
  pub mutex : Mutex
  pub child_mutex : Mutex

-- pthread_mutex_lock, by a thread that then goes on; `none` is a thread that waits.
abbrev pub lock {ℓ} : {A : Type ℓ} → Mutex → A → Option A
lock none next = some next
lock (some t) next = none

-- The loop of the function another.
pub another_step : AnotherPc → World → Option World
another_step locking s = lock s.mutex (record s { another_pc = holding; mutex = some another })
another_step holding s = some (record s { another_pc = locking; mutex = none })

-- The handlers prepare and infork, where they are registered.
pub prepare : Bool → World → Option World
prepare true s = lock s.mutex (record s { main_pc = prepared; mutex = some main })
prepare false s = some (record s { main_pc = prepared })

pub infork : Bool → Mutex → Mutex
infork true m = none
infork false m = m

abbrev pub reaped : ChildPc → World → Option World
reaped child_exited s = some (record s { main_pc = joining })
reaped _ s = none

pub main_step : (registered : Bool) → MainPc → World → Option World
unfolding prepare infork
main_step registered before_fork s = prepare registered s
main_step registered prepared s =
    some (record s { main_pc = forked; child_pc = in_handler; child_mutex = s.mutex })
main_step registered forked s =
    some (record s { main_pc = waiting; mutex = infork registered s.mutex })
main_step registered waiting s = reaped s.child_pc s
main_step registered joining s = none

pub child_step : (registered : Bool) → ChildPc → World → Option World
unfolding infork
child_step registered not_yet s = none
child_step registered in_handler s =
    some (record s { child_pc = child_locks; child_mutex = infork registered s.child_mutex })
child_step registered child_locks s =
    lock s.child_mutex (record s { child_pc = child_holds; child_mutex = some main })
child_step registered child_holds s =
    some (record s { child_pc = child_exited; child_mutex = none })
child_step registered child_exited s = none

-- After pthread_mutex_init, pthread_create and pthread_atfork.
abbrev pub created : World
created = record {
  another_pc = locking;
  main_pc = before_fork;
  child_pc = not_yet;
  mutex = none;
  child_mutex = none;
}

-- The states that the threads of both processes reach, in any order of their steps.
pub data Reach (registered : Bool) : World → Type 0 where
  start : Reach registered created
  by_another :
      {s t : World} → Reach registered s → another_step s.another_pc s ≡ some t → Reach registered t
  by_main :
      {s t : World}
      → Reach registered s
      → main_step registered s.main_pc s ≡ some t
      → Reach registered t
  by_child :
      {s t : World}
      → Reach registered s
      → child_step registered s.child_pc s ≡ some t
      → Reach registered t
