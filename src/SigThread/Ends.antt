-- ===== src/SigThread/Ends.antt =====
-- Multithread/threadHandlesAllsigs.cpp: what the thread prints, and how the process ends.
use mathlib.Core.Path.{subst}
use linux_websocket.Prelude.{
  ℕ, zero, suc, ◌+◌, ◌≤◌, ◌≡◌, ◌≢◌, ◌⊎◌, inl, inr, refl, ◌∙◌, sym, Bool, true, false, Option, some,
  List, if◌then◌else◌, arith, Bool-cases, run, run-keeps, some-injective,
}
use linux_websocket.SigThread.{
  Signal, sigquit, sigusr1, sigusr2, Life, runs, exited, killed, MainPc, masks, creates, kills,
  sleeps, Process, Act, main_goes, thread_waits, wait_fails, raised, masked, main_step, created,
  sig_thread, deliver, live_step, when_alive, step, started,
}

-- A signal is printed no more often than it was raised, one that is pending not counted; and where
-- main has got past pthread_kill, the process is dead.
record Printed (p : Process) : Type 0 where
  pub quits : p.quit_printed + (if p.quit_pending then 1 else 0) ≤ p.quit_raised
  pub usr1s : p.usr1_printed + (if p.usr1_pending then 1 else 0) ≤ p.usr1_raised
  pub never_back : (p.main ≢ sleeps) ⊎ (p.life ≡ killed sigusr2)
  pub not_done : p.life ≢ exited 0

started-Printed : Printed started
started-Printed = record {
  quits = omega arith;
  usr1s = omega arith;
  never_back = inl (λ e. ground arith);
  not_done = λ e. ground arith;
}

-- A step that leaves the counts as they are.
moves-Printed :
    (p : Process) (l : Life) (pc : MainPc)
    → Printed p
    → (pc ≢ sleeps) ⊎ (l ≡ killed sigusr2)
    → l ≢ exited 0
    → Printed (record p { life = l; main = pc })
moves-Printed p l pc h back done = record {
  quits = h.quits;
  usr1s = h.usr1s;
  never_back = back;
  not_done = done;
}

-- Where the process is alive, main has not got past pthread_kill.
not_past : (p : Process) → p.life ≡ runs → Printed p → p.main ≢ sleeps
not_past p l h = elim h.never_back [
  | inl not_there ↦ not_there
  | inr dead ↦ absurd (ground (arith, sym l ∙ dead))
]

main_step-Printed :
    (ret : ℕ) (pc : MainPc) (p : Process)
    → pc ≡ p.main
    → p.life ≡ runs
    → Printed p
    → Printed (main_step ret pc p)
main_step-Printed zero masks p e l h =
    moves-Printed p p.life creates h (inl (λ q. ground arith)) h.not_done
main_step-Printed (suc n) masks p e l h =
    moves-Printed p (exited 1) p.main h (inl (λ q. ground (arith, e ∙ q))) (λ q. ground arith)
main_step-Printed zero creates p e l h =
    moves-Printed p p.life kills h (inl (λ q. ground arith)) h.not_done
main_step-Printed (suc n) creates p e l h =
    moves-Printed p (exited 1) p.main h (inl (λ q. ground (arith, e ∙ q))) (λ q. ground arith)
main_step-Printed ret kills p e l h =
    moves-Printed p (killed sigusr2) sleeps h (inr refl) (λ q. ground arith)
main_step-Printed ret sleeps p e l h = absurd (not_past p l h (sym e))

deliver-Printed :
    (b : Bool) (s : Signal) (p : Process) → p.life ≡ runs → Printed p → Printed (deliver b s p)
deliver-Printed false s p l h =
    moves-Printed p (killed s) p.main h (inl (not_past p l h)) (λ q. ground arith)
deliver-Printed true sigquit p l h = record {
  quits = ground (arith, h.quits);
  usr1s = h.usr1s;
  never_back = h.never_back;
  not_done = h.not_done;
}
deliver-Printed true sigusr1 p l h = record {
  quits = h.quits;
  usr1s = ground (arith, h.usr1s);
  never_back = h.never_back;
  not_done = h.not_done;
}
deliver-Printed true sigusr2 p l h =
    moves-Printed p (killed sigusr2) p.main h (inl (not_past p l h)) (λ q. ground arith)

sig_thread-Printed : (s : Signal) (p t : Process) → Printed p → sig_thread s p ≡ some t → Printed t
sig_thread-Printed sigquit p t h e = elim (Bool-cases p.quit_pending) [
  | inl there ↦ subst Printed (some-injective (rw there at e)) (record {
    quits = ground (arith, h.quits, there);
    usr1s = h.usr1s;
    never_back = h.never_back;
    not_done = h.not_done;
  })
  | inr gone ↦ absurd (ground (arith, rw gone at e))
]
sig_thread-Printed sigusr1 p t h e = elim (Bool-cases p.usr1_pending) [
  | inl there ↦ subst Printed (some-injective (rw there at e)) (record {
    quits = h.quits;
    usr1s = ground (arith, h.usr1s, there);
    never_back = h.never_back;
    not_done = h.not_done;
  })
  | inr gone ↦ absurd (ground (arith, rw gone at e))
]
sig_thread-Printed sigusr2 p t h e = absurd (ground arith)

live_step-Printed :
    (p : Process) (a : Act) (t : Process)
    → p.life ≡ runs
    → Printed p
    → live_step p a ≡ some t
    → Printed t
live_step-Printed p (main_goes ret) t l h e =
    subst Printed (some-injective e) (main_step-Printed ret p.main p refl l h)
live_step-Printed p (thread_waits s) t l h e = elim (Bool-cases (created p.main)) [
  | inl there ↦ sig_thread-Printed s p t h (rw there at e)
  | inr not_yet ↦ absurd (ground (arith, rw not_yet at e))
]
live_step-Printed p wait_fails t l h e = elim (Bool-cases (created p.main)) [
  | inl there ↦
      subst Printed (some-injective (rw there at e))
        (moves-Printed p (exited 1) p.main h (inl (not_past p l h)) (λ q. ground arith))
  | inr not_yet ↦ absurd (ground (arith, rw not_yet at e))
]
live_step-Printed p (raised s) t l h e =
    subst Printed (some-injective e) (deliver-Printed (masked p.main) s p l h)

when_alive-some :
    (l : Life) (o : Option Process) (t : Process)
    → when_alive l o ≡ some t
    → (l ≡ runs) × (o ≡ some t)
when_alive-some runs o t e = (refl, e)
when_alive-some (exited code) o t e = absurd (ground arith)
when_alive-some (killed s) o t e = absurd (ground arith)

step-Printed : (p : Process) (a : Act) (t : Process) → Printed p → step p a ≡ some t → Printed t
unfolding step
step-Printed p a t h e =
    let q = when_alive-some p.life (live_step p a) t e in live_step-Printed p a t q.0 h q.1

-- Whatever the threads do and whatever signals come, in any order: SIGQUIT and SIGUSR1 are printed
-- no more often than they were raised since they are blocked; the process never returns 0; and it
-- is dead by SIGUSR2 where main has got past pthread_kill.
pub never_returns :
    (p : Process) (xs : List Act)
    → run step started xs ≡ some p
    → (p.quit_printed ≤ p.quit_raised)
      × (p.usr1_printed ≤ p.usr1_raised)
      × (p.life ≢ exited 0)
      × ((p.main ≢ sleeps) ⊎ (p.life ≡ killed sigusr2))
never_returns p xs e =
    let h = run-keeps step Printed step-Printed started p xs started-Printed e in
    (omega (arith, h.quits), omega (arith, h.usr1s), h.not_done, h.never_back)
