-- ===== src/Lock/Cond.antt =====
-- Multithread/locker.h: wait and signal of a cond that threads share. A step is one call of one
-- thread; what counts of the threads is how many stand at each call. pthread_cond_wait returns 0.
pub mod Waits
use linux_websocket.Prelude.{
  ℕ, zero, suc, ◌+◌, Bool, true, false, Option, none, some, if◌then◌else◌, one_of,
}

-- The threads in `wait`, by the call that they are in. So many calls of wait and of signal have
-- been made, so many have returned, and so many wakeups have come without a signal.
pub record Cond : Type 0 where
  pub locked : Bool
  pub entering : ℕ  -- pthread_mutex_lock(&m_mutex)
  pub holding : ℕ  -- before pthread_cond_wait, with the mutex
  pub blocked : ℕ  -- pthread_cond_wait, without the mutex
  pub woken : ℕ  -- pthread_cond_wait, at the mutex again
  pub leaving : ℕ  -- pthread_mutex_unlock(&m_mutex)
  pub called : ℕ
  pub returned : ℕ
  pub signalled : ℕ
  pub spurious : ℕ

pub data Act : Type 0 where
  waits : Act  -- a thread calls wait
  locks : Act  -- its pthread_mutex_lock returns
  blocks : Act  -- its pthread_cond_wait gives the mutex back
  wakes : Act  -- it wakes without a signal
  locks_again : Act  -- its pthread_cond_wait returns
  unlocks : Act  -- its pthread_mutex_unlock, and it returns
  signals : Act  -- a thread calls signal

abbrev pub when_free : Cond → Option Cond → Option Cond
when_free c o = if c.locked then none else o

-- pthread_cond_signal wakes a thread that is blocked, where there is one.
abbrev pub signal_one : ℕ → Cond → Cond
signal_one zero c = c
signal_one (suc n) c = record c { blocked = n; woken = c.woken + 1 }

unfoldable pub step : Cond → Act → Option Cond
step c waits = some (record c { entering = c.entering + 1; called = c.called + 1 })
step c locks =
    when_free c
      (one_of c.entering (λ n. record c { locked = true; entering = n; holding = c.holding + 1 }))
step c blocks =
    one_of c.holding (λ n. record c { locked = false; holding = n; blocked = c.blocked + 1 })
step c wakes =
    one_of c.blocked (λ n. record c { blocked = n; woken = c.woken + 1; spurious = c.spurious + 1 })
step c locks_again =
    when_free c
      (one_of c.woken (λ n. record c { locked = true; woken = n; leaving = c.leaving + 1 }))
step c unlocks =
    one_of c.leaving (λ n. record c { locked = false; leaving = n; returned = c.returned + 1 })
step c signals = some (signal_one c.blocked (record c { signalled = c.signalled + 1 }))

abbrev pub fresh : Cond
fresh = record {
  locked = false;
  entering = 0;
  holding = 0;
  blocked = 0;
  woken = 0;
  leaving = 0;
  called = 0;
  returned = 0;
  signalled = 0;
  spurious = 0;
}
