-- ===== src/AtFork/Safety.antt =====
-- Multithread/multithreadForkDeadlock.cpp: the child's copy of the mutex, with the handlers.
use linux_websocket.Prelude.{◌≡◌, ◌≢◌, ◌⊎◌, refl, true, none, some, arith}
use linux_websocket.AtFork.{
  main, another, Mutex, AnotherPc, locking, holding, MainPc, before_fork, prepared, forked, waiting,
  ChildPc, not_yet, in_handler, child_locks, child_holds, child_exited, World, another_step,
  main_step, child_step, Reach, start, by_another, by_main, by_child,
}

-- Who has the mutex, by where the threads stand.
abbrev Owner : AnotherPc → MainPc → Mutex → Type 0
Owner holding prepared m = ⊥
Owner holding forked m = ⊥
Owner holding _ m = m ≡ some another
Owner locking prepared m = m ≡ some main
Owner locking forked m = m ≡ some main
Owner locking _ m = m ≡ none

abbrev Copy : MainPc → ChildPc → Mutex → Type 0
Copy before_fork c m = c ≡ not_yet
Copy prepared c m = c ≡ not_yet
Copy p not_yet m = ⊥
Copy p in_handler m = m ≡ some main
Copy p child_locks m = m ≡ none
Copy p child_holds m = m ≡ some main
Copy p child_exited m = m ≡ none

record Inv (s : World) : Type 0 where
  owner : Owner s.another_pc s.main_pc s.mutex
  copy : Copy s.main_pc s.child_pc s.child_mutex

another_step-Inv :
    (a : AnotherPc) (p : MainPc) (s t : World)
    → a ≡ s.another_pc
    → p ≡ s.main_pc
    → Inv s
    → another_step a s ≡ some t
    → Inv t
unfolding another_step
another_step-Inv _ _ s t f g i e = ground arith

main_step-Inv :
    (a : AnotherPc) (p : MainPc) (c : ChildPc) (s t : World)
    → a ≡ s.another_pc
    → p ≡ s.main_pc
    → c ≡ s.child_pc
    → Inv s
    → main_step true p s ≡ some t
    → Inv t
unfolding main_step
main_step-Inv _ _ _ s t f g h i e = ground arith

child_step-Inv :
    (p : MainPc) (c : ChildPc) (s t : World)
    → p ≡ s.main_pc
    → c ≡ s.child_pc
    → Inv s
    → child_step true c s ≡ some t
    → Inv t
unfolding child_step
child_step-Inv _ _ s t f g i e = ground arith

Reach-Inv : (s : World) → Reach true s → Inv s
Reach-Inv _ start = record { owner = refl; copy = refl }
Reach-Inv t (by_another {s} r e) =
    another_step-Inv s.another_pc s.main_pc s t refl refl (Reach-Inv s r) e
Reach-Inv t (by_main {s} r e) =
    main_step-Inv s.another_pc s.main_pc s.child_pc s t refl refl refl (Reach-Inv s r) e
Reach-Inv t (by_child {s} r e) = child_step-Inv s.main_pc s.child_pc s t refl refl (Reach-Inv s r) e

-- The child process is not there yet, or it is over.
abbrev pub IsAbsent : ChildPc → Type 0
IsAbsent c = (c ≡ not_yet) ⊎ (c ≡ child_exited)

child_goes_on :
    (p : MainPc) (c : ChildPc) (s : World)
    → p ≡ s.main_pc
    → c ≡ s.child_pc
    → Inv s
    → IsAbsent c ⊎ (child_step true c s ≢ none)
unfolding child_step
child_goes_on _ _ s f g i = ground arith

main_goes_on :
    (p : MainPc) (c : ChildPc) (s : World)
    → p ≡ s.main_pc
    → c ≡ s.child_pc
    → Inv s
    → (p ≢ waiting) ⊎ ((main_step true p s ≢ none) ⊎ (child_step true c s ≢ none))
unfolding main_step child_step
main_goes_on _ _ s f g i = ground arith

-- With the handlers registered, in any order of the steps of the three threads: the child process
-- can go on wherever it stands, until it exits; and where the parent waits for it, the parent or
-- the child can go on.
pub at_fork_progress :
    (s : World)
    → Reach true s
    → (IsAbsent s.child_pc ⊎ (child_step true s.child_pc s ≢ none))
      × ((s.main_pc ≢ waiting)
          ⊎ ((main_step true s.main_pc s ≢ none) ⊎ (child_step true s.child_pc s ≢ none)))
at_fork_progress s r =
    let i = Reach-Inv s r in
    (
      child_goes_on s.main_pc s.child_pc s refl refl i,
      main_goes_on s.main_pc s.child_pc s refl refl i,
    )
