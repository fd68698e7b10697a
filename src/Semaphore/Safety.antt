-- ===== src/Semaphore/Safety.antt =====
-- Multiprocessing/IPC_PRIVATE.cpp: who holds the semaphore, in every state that is reached.
use linux_websocket.Prelude.{
  Bool, true, false, if◌then◌else◌, ℕ, ◌+◌, ◌≡◌, ◌≢◌, ◌⊎◌, refl, none, some, arith,
}
use linux_websocket.Semaphore.{
  Semaphore, ChildPc, child_inside, child_gone, ParentPc, parent_inside, removes, parent_done,
  child_step, child_killed, parent_step, Reach, start, by_child, by_signal, by_parent,
}

abbrev pub child_holds : ChildPc → ℕ
child_holds child_inside = 1
child_holds _ = 0

abbrev pub parent_holds : ParentPc → ℕ
parent_holds parent_inside = 1
parent_holds _ = 0

-- The parent passes waitpid only when the child has ended.
abbrev IsReaped : ParentPc → ChildPc → Type 0
IsReaped removes c = c ≡ child_gone
IsReaped parent_done c = c ≡ child_gone
IsReaped _ c = Unit {0}

-- The parent has not removed the semaphore.
abbrev keeps : ParentPc → Bool
keeps parent_done = false
keeps _ = true

record Inv (c : ChildPc) (p : ParentPc) (s : Semaphore) : Type 0 where
  child_adj : s.child_adj ≡ child_holds c
  parent_adj : s.parent_adj ≡ parent_holds p
  total : s.value + child_holds c + parent_holds p ≡ (if keeps p then 1 else 0)
  reaped : IsReaped p c
  there : s.there ≡ keeps p

child_step-Inv :
    (c d : ChildPc) (p : ParentPc) (s t : Semaphore)
    → Inv c p s
    → child_step c s ≡ some (d, t)
    → Inv d p t
unfolding child_step
child_step-Inv _ d _ s t i e = ground arith

child_killed-Inv :
    (c d : ChildPc) (p : ParentPc) (s t : Semaphore)
    → Inv c p s
    → child_killed c s ≡ some (d, t)
    → Inv d p t
unfolding child_killed
child_killed-Inv _ d _ s t i e = ground arith

parent_step-Inv :
    (c : ChildPc) (p q : ParentPc) (s t : Semaphore)
    → Inv c p s
    → parent_step p c s ≡ some (q, t)
    → Inv c q t
unfolding parent_step
parent_step-Inv _ _ q s t i e = ground arith

Reach-Inv : {c : ChildPc} {p : ParentPc} {s : Semaphore} → Reach c p s → Inv c p s
Reach-Inv start = record {
  child_adj = refl;
  parent_adj = refl;
  total = refl;
  reaped = tt;
  there = refl;
}
Reach-Inv (by_child {c} {d} {p} {s} {t} r e) = child_step-Inv c d p s t (Reach-Inv r) e
Reach-Inv (by_signal {c} {d} {p} {s} {t} r e) = child_killed-Inv c d p s t (Reach-Inv r) e
Reach-Inv (by_parent {c} {p} {q} {s} {t} r e) = parent_step-Inv c p q s t (Reach-Inv r) e

exclusive :
    (c : ChildPc) (p : ParentPc) (s : Semaphore)
    → Inv c p s
    → (c ≢ child_inside) ⊎ (p ≢ parent_inside)
exclusive _ _ s i = ground arith

-- Both processes have ended, and the semaphore is removed.
abbrev pub Ended : ChildPc → ParentPc → Semaphore → Type 0
Ended c p s = (c ≡ child_gone) × (p ≡ parent_done) × (s.there ≡ false)

goes_on :
    (c : ChildPc) (p : ParentPc) (s : Semaphore)
    → Inv c p s
    → (child_step c s ≢ none) ⊎ ((parent_step p c s ≢ none) ⊎ Ended c p s)
unfolding child_step parent_step
goes_on _ _ s i = ground arith

worth :
    (c : ChildPc) (p : ParentPc) (s : Semaphore)
    → Inv c p s
    → (p ≡ parent_done) ⊎ ((s.there ≡ true) × (s.value + child_holds c + parent_holds p ≡ 1))
worth _ _ s i = ground arith

last_user :
    (c : ChildPc) (p : ParentPc) (s : Semaphore) → Inv c p s → (p ≢ removes) ⊎ (c ≡ child_gone)
last_user _ _ s i = ground arith

-- In any order of the steps of the parent and the child, and also if a signal kills the child at
-- any time: the two are never between their two calls of pv at the same time, and no state is a
-- deadlock, so that one of them can go on, or both have ended and the semaphore is removed. Until
-- the parent has removed it, the semaphore exists, and its value, with one for the process that is
-- between its two calls of pv, is 1; and the parent removes it only when the child has ended.
pub semaphore_turns :
    (c : ChildPc) (p : ParentPc) (s : Semaphore)
    → Reach c p s
    → ((c ≢ child_inside) ⊎ (p ≢ parent_inside))
      × ((child_step c s ≢ none) ⊎ ((parent_step p c s ≢ none) ⊎ Ended c p s))
      × ((p ≡ parent_done) ⊎ ((s.there ≡ true) × (s.value + child_holds c + parent_holds p ≡ 1)))
      × ((p ≢ removes) ⊎ (c ≡ child_gone))
semaphore_turns c p s r =
    let i = Reach-Inv r in (exclusive c p s i, goes_on c p s i, worth c p s i, last_user c p s i)
