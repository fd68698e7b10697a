-- ===== src/Deadlock/Outcomes.antt =====
-- Multithread/deadLockDemo.cpp: the states that are reached, and those where both threads are
-- stuck.
use linux_websocket.Prelude.{ℕ, ◌≡◌, ◌⊎◌, refl, Option, none, some, List, [], ◌∷◌, arith}
use linux_websocket.Deadlock.{
  Thread, main, another, Memory, MainPc, before_a, bump_a, before_b, add_b, release_b, release_a,
  joining, finished, AnotherPc, start_b, bump_b, wait_a, add_a, free_a, free_b, exited, main_step,
  another_step, Reach, start, by_main, by_another,
}

abbrev pub shape : (a b : ℕ) → (mutex_a mutex_b : Option Thread) → Memory
shape a b x y = record { a = a; b = b; mutex_a = x; mutex_b = y }

abbrev M : Option Thread
M = some main

abbrev A : Option Thread
A = some another

abbrev N : Option Thread
N = none

-- The memory, where the two threads stand: none if the two are never there together.
memories : MainPc → AnotherPc → List Memory
memories before_a start_b = shape 0 0 N N ∷ []
memories bump_a start_b = shape 0 0 M N ∷ []
memories before_b start_b = shape 1 0 M N ∷ []
memories add_b start_b = shape 1 0 M M ∷ []
memories release_b start_b = shape 1 1 M M ∷ []
memories release_a start_b = shape 1 1 M N ∷ []
memories joining start_b = shape 1 1 N N ∷ []
memories before_a bump_b = shape 0 0 N A ∷ []
memories bump_a bump_b = shape 0 0 M A ∷ []
memories before_b bump_b = shape 1 0 M A ∷ []
memories release_a bump_b = shape 1 1 M A ∷ []
memories joining bump_b = shape 1 1 N A ∷ []
memories before_a wait_a = shape 0 1 N A ∷ []
memories bump_a wait_a = shape 0 1 M A ∷ []
memories before_b wait_a = shape 1 1 M A ∷ []
memories release_a wait_a = shape 1 2 M A ∷ []
memories joining wait_a = shape 1 2 N A ∷ []
memories before_a add_a = shape 0 1 A A ∷ []
memories joining add_a = shape 1 2 A A ∷ []
memories before_a free_a = shape 1 1 A A ∷ []
memories joining free_a = shape 2 3 A A ∷ []
memories before_a free_b = shape 1 1 N A ∷ []
memories bump_a free_b = shape 1 1 M A ∷ []
memories before_b free_b = shape 2 1 M A ∷ []
memories joining free_b = shape 2 3 N A ∷ []
memories before_a exited = shape 1 1 N N ∷ []
memories bump_a exited = shape 1 1 M N ∷ []
memories before_b exited = shape 2 1 M N ∷ []
memories add_b exited = shape 2 1 M M ∷ []
memories release_b exited = shape 3 2 M M ∷ []
memories release_a exited = shape 3 2 M N ∷ []
memories joining exited = shape 2 3 N N ∷ shape 3 2 N N ∷ []
memories finished exited = shape 2 3 N N ∷ shape 3 2 N N ∷ []
memories _ _ = []

abbrev OneOf : List Memory → Memory → Type 0
OneOf [] m = ⊥
OneOf (n ∷ []) m = m ≡ n
OneOf (n ∷ k ∷ ns) m = (m ≡ n) ⊎ OneOf (k ∷ ns) m

main_step-memories :
    (p : MainPc) (o : AnotherPc) (m : Memory) (q : MainPc) (n : Memory)
    → OneOf (memories p o) m
    → main_step p o m ≡ some (q, n)
    → OneOf (memories q o) n
unfolding memories main_step
main_step-memories _ _ m q n i e = ground arith

another_step-memories :
    (p : MainPc) (o : AnotherPc) (m : Memory) (q : AnotherPc) (n : Memory)
    → OneOf (memories p o) m
    → another_step o m ≡ some (q, n)
    → OneOf (memories p q) n
unfolding memories another_step
another_step-memories _ _ m q n i e = ground arith

Reach-memories : {p : MainPc} {o : AnotherPc} {m : Memory} → Reach p o m → OneOf (memories p o) m
unfolding memories
Reach-memories start = refl
Reach-memories (by_main {p} {q} {o} {m} {n} r e) = main_step-memories p o m q n (Reach-memories r) e
Reach-memories (by_another {p} {o} {q} {m} {n} r e) =
    another_step-memories p o m q n (Reach-memories r) e

-- Each thread holds the mutex that the other waits for.
pub record Deadlocked (p : MainPc) (o : AnotherPc) (m : Memory) : Type 0 where
  pub main_waits : p ≡ before_b
  pub another_waits : o ≡ wait_a
  pub main_holds : m.mutex_a ≡ some main
  pub another_holds : m.mutex_b ≡ some another

-- Both threads have ended, with the result of one whole thread after the other.
pub record Serial (p : MainPc) (o : AnotherPc) (m : Memory) : Type 0 where
  pub main_ended : p ≡ finished
  pub another_ended : o ≡ exited
  pub free : (m.mutex_a ≡ none) × (m.mutex_b ≡ none)
  pub result : ((m.a ≡ 2) × (m.b ≡ 3)) ⊎ ((m.a ≡ 3) × (m.b ≡ 2))

stuck :
    (p : MainPc) (o : AnotherPc) (m : Memory)
    → OneOf (memories p o) m
    → main_step p o m ≡ none
    → another_step o m ≡ none
    → Deadlocked p o m ⊎ Serial p o m
unfolding memories main_step another_step
stuck _ _ m i e f = ground arith

-- Where the two threads, in any order of their steps, reach a state in which neither can go on,
-- either each holds the mutex that the other waits for, or both have ended, with both mutexes free
-- and the result of running one whole thread after the other.
pub no_step_left :
    (p : MainPc) (o : AnotherPc) (m : Memory)
    → Reach p o m
    → main_step p o m ≡ none
    → another_step o m ≡ none
    → Deadlocked p o m ⊎ Serial p o m
no_step_left p o m r e f = stuck p o m (Reach-memories r) e f
