-- ===== src/SigThread.antt =====
-- Multithread/threadHandlesAllsigs.cpp: a thread that takes the signals which all threads block. A
-- step is one call of main or of the thread, or a signal from outside.
pub mod Ends
pub mod Tests
use linux_websocket.Prelude.{
  ℕ, zero, suc, ◌+◌, Bool, true, false, ◌&&◌, Option, none, some, if◌then◌else◌,
}

-- The signals, by their numbers: SIGQUIT and SIGUSR1 are in the set, SIGUSR2 is not.
pub data Signal : Type 0 where
  sigquit sigusr1 sigusr2 : Signal

pub data Life : Type 0 where
  runs : Life
  exited : (code : ℕ) → Life
  killed : Signal → Life

-- The call of main that comes next.
pub data MainPc : Type 0 where
  masks : MainPc  -- pthread_sigmask
  creates : MainPc  -- pthread_create
  kills : MainPc  -- pthread_kill(thread, SIGUSR2)
  sleeps : MainPc  -- sleep(10), and return 0

-- The signals of the set that are blocked and pending, and how often each has been raised since it
-- is blocked and printed.
pub record Process : Type 0 where
  pub life : Life
  pub main : MainPc
  pub quit_pending : Bool
  pub quit_raised : ℕ
  pub quit_printed : ℕ
  pub usr1_pending : Bool
  pub usr1_raised : ℕ
  pub usr1_printed : ℕ

pub data Act : Type 0 where
  main_goes : (ret : ℕ) → Act  -- the next call of main returns `ret`
  thread_waits : Signal → Act  -- sigwait gives the thread a signal, which it prints
  wait_fails : Act  -- sigwait returns an error
  raised : Signal → Act

-- handle_error_en
abbrev pub or_fails : (ret : ℕ) → Process → MainPc → Process
or_fails zero p next = record p { main = next }
or_fails (suc n) p next = record p { life = exited 1 }

-- The thread is there.
abbrev pub created : MainPc → Bool
created masks = false
created creates = false
created _ = true

abbrev pub print_quit : Bool → Process → Option Process
print_quit false p = none
print_quit true p = some (record p { quit_pending = false; quit_printed = p.quit_printed + 1 })

abbrev pub print_usr1 : Bool → Process → Option Process
print_usr1 false p = none
print_usr1 true p = some (record p { usr1_pending = false; usr1_printed = p.usr1_printed + 1 })

-- sigwait takes a pending signal of the set.
abbrev pub sig_thread : Signal → Process → Option Process
sig_thread sigquit p = print_quit p.quit_pending p
sig_thread sigusr1 p = print_usr1 p.usr1_pending p
sig_thread sigusr2 p = none

-- The set of sigemptyset and the two calls of sigaddset.
abbrev pub in_set : Signal → Bool
in_set sigquit = true
in_set sigusr1 = true
in_set sigusr2 = false

-- The set is blocked.
abbrev pub masked : MainPc → Bool
masked masks = false
masked _ = true

-- A signal that is blocked becomes pending; sigwait would take SIGUSR2 too, uncounted here.
abbrev pub pend : Signal → Process → Process
pend sigquit p = record p { quit_pending = true; quit_raised = p.quit_raised + 1 }
pend sigusr1 p = record p { usr1_pending = true; usr1_raised = p.usr1_raised + 1 }
pend sigusr2 p = p

-- None of the signals has a handler: one that is not blocked ends the process.
abbrev pub deliver : (masked : Bool) → Signal → Process → Process
deliver masked s p = if masked && in_set s then pend s p else record p { life = killed s }

-- sigwait is called for ever, so the thread is there and pthread_kill reaches it, whatever `ret` is.
abbrev pub main_step : (ret : ℕ) → MainPc → Process → Process
main_step ret masks p = or_fails ret p creates
main_step ret creates p = or_fails ret p kills
main_step ret kills p = record (deliver (masked kills) sigusr2 p) { main = sleeps }
main_step ret sleeps p = record p { life = exited 0 }

abbrev pub live_step : Process → Act → Option Process
live_step p (main_goes ret) = some (main_step ret p.main p)
live_step p (thread_waits s) = if created p.main then sig_thread s p else none
live_step p wait_fails = if created p.main then some (record p { life = exited 1 }) else none
live_step p (raised s) = some (deliver (masked p.main) s p)

abbrev pub when_alive : Life → Option Process → Option Process
when_alive runs o = o
when_alive _ o = none

unfoldable pub step : Process → Act → Option Process
step p a = when_alive p.life (live_step p a)

abbrev pub started : Process
started = record {
  life = runs;
  main = masks;
  quit_pending = false;
  quit_raised = 0;
  quit_printed = 0;
  usr1_pending = false;
  usr1_raised = 0;
  usr1_printed = 0;
}
