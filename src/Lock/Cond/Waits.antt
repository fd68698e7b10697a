-- ===== src/Lock/Cond/Waits.antt =====
-- Multithread/locker.h: which calls of cond::wait return.
use mathlib.Core.Path.{subst}
use linux_websocket.Prelude.{
  ℕ, zero, suc, ◌+◌, ◌≤◌, ◌≡◌, ◌∙◌, inl, inr, refl, true, false, Option, some, List, [], ◌∷◌, ◌==◌,
  if◌then◌else◌, arith, Bool-cases, one_of-some, some-injective, run, run-keeps, run-cons,
}
use linux_websocket.Lock.Cond.{
  Cond, Act, waits, locks, blocks, wakes, locks_again, unlocks, signals, when_free, signal_one,
  step, fresh,
}

-- One thread at most has the mutex; each call of wait is somewhere or has returned; and each thread
-- that has got past being blocked was woken.
pub record Counted (c : Cond) : Type 0 where
  pub mutex : c.holding + c.leaving ≡ (if c.locked then 1 else 0)
  pub calls : c.called ≡ c.entering + c.holding + c.blocked + c.woken + c.leaving + c.returned
  pub wakeups : c.woken + c.leaving + c.returned ≤ c.signalled + c.spurious

fresh-Counted : Counted fresh
fresh-Counted = record { mutex = refl; calls = refl; wakeups = omega arith }

when_free-some :
    (c : Cond) {t : Cond} {o : Option Cond}
    → when_free c o ≡ some t
    → (c.locked ≡ false) × (o ≡ some t)
when_free-some c e = elim (Bool-cases c.locked) [
  | inl held ↦ absurd (ground arith)
  | inr free ↦ (free, rw free at e)
]

signal_one-Counted :
    (n : ℕ) (c t : Cond)
    → n ≡ c.blocked
    → Counted c
    → signal_one n (record c { signalled = c.signalled + 1 }) ≡ t
    → Counted t
signal_one-Counted zero c t e h q =
    subst Counted q
      (record { mutex = h.mutex; calls = h.calls; wakeups = omega (arith, h.wakeups) })
signal_one-Counted (suc n) c t e h q =
    subst Counted q (record {
      mutex = h.mutex;
      calls = omega (arith, h.calls);
      wakeups = omega (arith, h.wakeups);
    })

step-Counted : (c : Cond) (a : Act) (t : Cond) → Counted c → step c a ≡ some t → Counted t
unfolding step
step-Counted c waits t h e =
    subst Counted (some-injective e)
      (record { mutex = h.mutex; calls = omega (arith, h.calls); wakeups = h.wakeups })
step-Counted c locks t h e =
    let free = when_free-some c e in
    let left = one_of-some c.entering _ t free.1 in
    subst Counted left.2 (record {
      mutex = ground (arith, h.mutex, free.0);
      calls = omega (arith, h.calls, left.1);
      wakeups = h.wakeups;
    })
step-Counted c blocks t h e =
    let left = one_of-some c.holding _ t e in
    subst Counted left.2 (record {
      mutex = ground (arith, h.mutex, left.1);
      calls = omega (arith, h.calls, left.1);
      wakeups = h.wakeups;
    })
step-Counted c wakes t h e =
    let left = one_of-some c.blocked _ t e in
    subst Counted left.2 (record {
      mutex = h.mutex;
      calls = omega (arith, h.calls, left.1);
      wakeups = omega (arith, h.wakeups);
    })
step-Counted c locks_again t h e =
    let free = when_free-some c e in
    let left = one_of-some c.woken _ t free.1 in
    subst Counted left.2 (record {
      mutex = ground (arith, h.mutex, free.0);
      calls = omega (arith, h.calls, left.1);
      wakeups = omega (arith, h.wakeups, left.1);
    })
step-Counted c unlocks t h e =
    let left = one_of-some c.leaving _ t e in
    subst Counted left.2 (record {
      mutex = ground (arith, h.mutex, left.1);
      calls = omega (arith, h.calls, left.1);
      wakeups = omega (arith, h.wakeups, left.1);
    })
step-Counted c signals t h e = signal_one-Counted c.blocked c t refl h (some-injective e)

-- Each thread in wait has returned if it was woken by then, and is blocked if it was not.
pub record Quiet (c t : Cond) : Type 0 where
  pub nowhere_else : t.entering + t.holding + t.woken + t.leaving ≡ 0
  pub blocked : t.blocked ≡ c.blocked + c.entering + c.holding
  pub returned : t.returned ≡ c.returned + c.woken + c.leaving

-- Some steps, none of which is a call of wait or signal or a wakeup, lead to a quiet state.
pub record Settles (c : Cond) : Type 0 where
  pub acts : List Act
  pub last : Cond
  pub leads : run step c acts ≡ some last
  pub signalled : last.signalled + last.spurious + last.called ≡ c.signalled + c.spurious + c.called
  pub quiet : Quiet c last

-- Where a thread goes on, and the rest settles.
Settles-step :
    (c d : Cond) (a : Act)
    → step c a ≡ some d
    → (d.signalled + d.spurious + d.called ≡ c.signalled + c.spurious + c.called)
    → d.blocked + d.entering + d.holding ≡ c.blocked + c.entering + c.holding
    → d.returned + d.woken + d.leaving ≡ c.returned + c.woken + c.leaving
    → Settles d
    → Settles c
Settles-step c d a e s b r q = record {
  acts = a ∷ q.acts;
  last = q.last;
  leads = run-cons step c d q.last a q.acts e q.leads;
  signalled = q.signalled ∙ s;
  quiet = record {
    nowhere_else = q.quiet.nowhere_else;
    blocked = q.quiet.blocked ∙ b;
    returned = q.quiet.returned ∙ r;
  };
}

-- `e` threads are to get the mutex for the first time, and `w` again.
free-Settles :
    (e w : ℕ) (c : Cond)
    → c.entering ≡ e
    → c.woken ≡ w
    → c.holding + c.leaving ≡ 0
    → c.locked ≡ false
    → Settles c
unfolding step
free-Settles (suc e) w c ee we none_in free =
    let d : Cond = record c { locked = true; entering = e; holding = c.holding + 1 } in
    let f : Cond = record c {
      locked = false;
      entering = e;
      holding = 0;
      blocked = c.blocked + 1;
    } in
    let alone : c.holding ≡ 0 = omega arith in
    Settles-step c d locks (rw (free, ee) refl) refl (omega arith) refl (
      Settles-step d f blocks (rw alone refl) refl (omega arith) refl
        (free-Settles e w f refl we (omega arith) refl))
free-Settles zero (suc w) c ee we none_in free =
    let d : Cond = record c { locked = true; woken = w; leaving = c.leaving + 1 } in
    let f : Cond = record c { locked = false; woken = w; leaving = 0; returned = c.returned + 1 } in
    let alone : c.leaving ≡ 0 = omega arith in
    Settles-step c d locks_again (rw (free, we) refl) refl refl (omega arith) (
      Settles-step d f unlocks (rw alone refl) refl refl (omega arith)
        (free-Settles zero w f ee refl (omega arith) refl))
free-Settles zero zero c ee we none_in free = record {
  acts = [];
  last = c;
  leads = refl;
  signalled = refl;
  quiet = record { nowhere_else = omega arith; blocked = omega arith; returned = omega arith };
}

-- `n` threads have the mutex before they are blocked, and `m` after it.
held-Settles : (n m : ℕ) (c : Cond) → c.holding ≡ n → c.leaving ≡ m → Counted c → Settles c
unfolding step
held-Settles (suc n) m c hn lm h =
    let d : Cond = record c { locked = false; holding = n; blocked = c.blocked + 1 } in
    Settles-step c d blocks (rw hn refl) refl (omega arith) refl
      (free-Settles c.entering c.woken d refl refl (ground (arith, h.mutex)) refl)
held-Settles zero (suc m) c hn lm h =
    let d : Cond = record c { locked = false; leaving = m; returned = c.returned + 1 } in
    Settles-step c d unlocks (rw lm refl) refl refl (omega arith)
      (free-Settles c.entering c.woken d refl refl (ground (arith, h.mutex)) refl)
held-Settles zero zero c hn lm h =
    free-Settles c.entering c.woken c refl refl (omega arith) (ground (arith, h.mutex))

-- What a call of signal leads to: after it the threads can go on so that, if a thread was blocked,
-- one more returns than without it.
pub record Answers (c : Cond) : Type 0 where
  pub after : Cond
  pub signal : step c signals ≡ some after
  pub settles : Settles after
  pub one_more :
      settles.last.returned ≡ (if c.blocked == 0 then 0 else 1) + c.returned + c.woken + c.leaving

signal_one-woken :
    (n : ℕ) (c : Cond)
    → (signal_one n c).returned + (signal_one n c).woken + (signal_one n c).leaving
      ≡ (if n == 0 then 0 else 1) + c.returned + c.woken + c.leaving
signal_one-woken zero c = omega arith
signal_one-woken (suc n) c = ground arith

Counted-Answers : (c : Cond) → Counted c → Answers c
unfolding step
Counted-Answers c h =
    let d = signal_one c.blocked (record c { signalled = c.signalled + 1 }) in
    let e = signal_one-Counted c.blocked c d refl h refl in
    let s = held-Settles d.holding d.leaving d refl refl e in
    record {
      after = d;
      signal = refl;
      settles = s;
      one_more =
          s.quiet.returned ∙ signal_one-woken c.blocked (record c { signalled = c.signalled + 1 });
    }

-- Whatever calls and wakeups come, in any order: one thread at most has the mutex; each call of
-- wait has returned or its thread stands in it; no more threads have got past being blocked than
-- there were signals and wakeups without one. The threads can go on so that exactly those return
-- that have been woken, and all the others are blocked. And after one more call of signal, they can
-- go on so that one thread more returns, if one was blocked when it was called.
pub waits_signalled :
    (c : Cond) (xs : List Act) → run step fresh xs ≡ some c → Counted c × Settles c × Answers c
waits_signalled c xs e =
    let h = run-keeps step Counted step-Counted fresh c xs fresh-Counted e in
    (h, held-Settles c.holding c.leaving c refl refl h, Counted-Answers c h)
