-- ===== src/Lock/Locker.antt =====
-- Multithread/locker.h: lock and unlock of a locker that threads share. A step is one call of one
-- thread; a thread calls unlock when it has the lock.
use mathlib.Core.Path.{subst}
use linux_websocket.Prelude.{
  ℕ, zero, suc, ◌+◌, ◌≡◌, inl, inr, refl, Bool, true, false, Option, none, some, List, [], ◌∷◌,
  if◌then◌else◌, arith, Bool-cases, one_of, one_of-some, some-injective, run, run-keeps, run-cons,
}

-- `waiting` threads are in pthread_mutex_lock, `inside` between lock and unlock, and `through`
-- calls of unlock have returned.
pub record Locker : Type 0 where
  pub locked : Bool
  pub waiting : ℕ
  pub inside : ℕ
  pub through : ℕ

pub data Act : Type 0 where
  calls : Act  -- a thread calls lock
  locks : Act  -- its pthread_mutex_lock returns
  unlocks : Act  -- its pthread_mutex_unlock

unfoldable pub step : Locker → Act → Option Locker
step l calls = some (record l { waiting = l.waiting + 1 })
step l locks =
    if l.locked
    then none
    else one_of l.waiting (λ n. record l { locked = true; waiting = n; inside = l.inside + 1 })
step l unlocks =
    one_of l.inside (λ n. record l { locked = false; inside = n; through = l.through + 1 })

abbrev pub fresh : Locker
fresh = record { locked = false; waiting = 0; inside = 0; through = 0 }

-- The threads inside are one where the mutex is locked, and none where it is not.
abbrev Exclusive : Locker → Type 0
Exclusive l = l.inside ≡ (if l.locked then 1 else 0)

step-Exclusive : (l : Locker) (a : Act) (t : Locker) → Exclusive l → step l a ≡ some t → Exclusive t
unfolding step
step-Exclusive l calls t h e = subst Exclusive (some-injective e) h
step-Exclusive l locks t h e = elim (Bool-cases l.locked) [
  | inl held ↦ absurd (ground arith)
  | inr free ↦
      let left = one_of-some l.waiting _ t (rw free at e) in
      subst Exclusive left.2 (ground (arith, free))
]
step-Exclusive l unlocks t h e =
    let left = one_of-some l.inside _ t e in subst Exclusive left.2 (ground (arith, left.1))

-- Steps without a new call after which no thread waits or is inside.
abbrev pub Drains : Locker → Type 0
Drains l =
    (xs : List Act) × (t : Locker) × (run step l xs ≡ some t)
    × (t.waiting + t.inside ≡ 0)
    × (t.through ≡ l.through + l.inside + l.waiting)

Drains-step :
    (l t : Locker) (a : Act)
    → step l a ≡ some t
    → t.through + t.inside + t.waiting ≡ l.through + l.inside + l.waiting
    → Drains t
    → Drains l
Drains-step l t a e s d =
    (a ∷ d.0, d.1, run-cons step l t d.1 a d.0 e d.2, d.3, omega (arith, s, d.4))

free-Drains : (w : ℕ) (l : Locker) → l.waiting ≡ w → l.inside ≡ 0 → l.locked ≡ false → Drains l
unfolding step
free-Drains zero l e i f = ([], l, refl, omega arith, omega arith)
free-Drains (suc w) l e i f =
    let d : Locker = record l { locked = true; waiting = w; inside = l.inside + 1 } in
    let g : Locker = record l {
      locked = false;
      waiting = w;
      inside = 0;
      through = l.through + 1;
    } in
    Drains-step l d locks (rw (f, e) refl) (omega arith)
      (Drains-step d g unlocks (rw i refl) (omega arith) (free-Drains w g refl refl refl))

held-Drains : (n : ℕ) (l : Locker) → l.inside ≡ n → Exclusive l → Drains l
unfolding step
held-Drains zero l e h = free-Drains l.waiting l refl e (ground (arith, h))
held-Drains (suc n) l e h =
    let g : Locker = record l { locked = false; inside = n; through = l.through + 1 } in
    Drains-step l g unlocks (rw e refl) (omega arith)
      (free-Drains l.waiting g refl (ground (arith, h, e)) refl)

-- Whatever calls come, in any order: the threads between lock and unlock are one where the mutex is
-- locked, and none where it is not; and all that wait can get through one after the other.
pub locks_exclusive :
    (l : Locker) (xs : List Act)
    → run step fresh xs ≡ some l
    → (l.inside ≡ (if l.locked then 1 else 0)) × Drains l
locks_exclusive l xs e =
    let h = run-keeps step Exclusive step-Exclusive fresh l xs refl e in
    (h, held-Drains l.inside l refl h)
