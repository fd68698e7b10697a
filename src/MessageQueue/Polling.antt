-- ===== src/MessageQueue/Polling.antt =====
-- Multiprocessing/msgQueueDemo.cpp: when the parent gets the message.
use mathlib.Core.Path.{subst}
use linux_websocket.Prelude.{
  ◌≡◌, ◌⊎◌, inl, inr, refl, Bool, true, false, some, List, [], ◌∷◌, arith, run, run-keeps,
  some-injective,
}
use linux_websocket.MessageQueue.{
  Mymsg, hello_world, child_buf, ChildPc, no_child, sends, exited, aborted, ParentPc, polls,
  received, Queue, start, Act, by_child, by_parent, step,
}

abbrev state : List Mymsg → ChildPc → ParentPc → Queue
state ms c p = record { messages = ms; child = c; parent = p }

-- The states in which the message may be sent: not yet, under way, got.
data Sending : Queue → Type 0 where
  not_sent : Sending (state [] sends polls)
  under_way : Sending (state (child_buf ∷ []) exited polls)
  got : Sending (state [] exited (received hello_world))

-- The states in which no message comes, by whether msgsnd works.
data Silent : Bool → Queue → Type 0 where
  unsent : Silent false (state [] sends polls)
  childless : {b : Bool} → Silent b (state [] no_child polls)
  failed : {b : Bool} → Silent b (state [] aborted polls)

step-Sending : (q : Queue) (a : Act) (t : Queue) → Sending q → step true q a ≡ some t → Sending t
unfolding step
step-Sending q by_child t not_sent e = subst Sending (some-injective e) under_way
step-Sending q by_parent t not_sent e = subst Sending (some-injective e) not_sent
step-Sending q by_child t under_way e = absurd (ground arith)
step-Sending q by_parent t under_way e = subst Sending (some-injective e) got
step-Sending q by_child t got e = absurd (ground arith)
step-Sending q by_parent t got e = absurd (ground arith)

step-Silent :
    (b : Bool) (q : Queue) (a : Act) (t : Queue) → Silent b q → step b q a ≡ some t → Silent b t
unfolding step
step-Silent b q by_child t unsent e = subst (Silent b) (some-injective e) failed
step-Silent b q by_parent t unsent e = subst (Silent b) (some-injective e) unsent
step-Silent b q by_child t childless e = absurd (ground arith)
step-Silent b q by_parent t childless e = subst (Silent b) (some-injective e) childless
step-Silent b q by_child t failed e = absurd (ground arith)
step-Silent b q by_parent t failed e = subst (Silent b) (some-injective e) failed

-- The parent polls or has the message, and in the first case some steps give it the message.
abbrev pub Sent : Queue → Type 0
Sent q =
    ((q.parent ≡ polls) ⊎ (q.parent ≡ received hello_world))
    × ((xs : List Act) × (t : Queue) × (run (step true) q xs ≡ some t)
        × (t.parent ≡ received hello_world))

-- The parent polls, and its next call of msgrcv changes nothing.
abbrev pub Polls : Bool → Queue → Type 0
Polls allowed q = (q.parent ≡ polls) × (step allowed q by_parent ≡ some q)

Sending-Sent : (q : Queue) → Sending q → Sent q
unfolding step
Sending-Sent q not_sent =
    (inl refl, (by_child ∷ by_parent ∷ [], state [] exited (received hello_world), refl, refl))
Sending-Sent q under_way =
    (inl refl, (by_parent ∷ [], state [] exited (received hello_world), refl, refl))
Sending-Sent q got = (inr refl, ([], q, refl, refl))

Silent-Polls : (b : Bool) (q : Queue) → Silent b q → Polls b q
unfolding step
Silent-Polls b q unsent = (refl, refl)
Silent-Polls b q childless = (refl, refl)
Silent-Polls b q failed = (refl, refl)

-- What a run comes to, by whether msgsnd and fork both work.
abbrev pub Outcome : (allowed forked : Bool) → Queue → Type 0
Outcome true true q = Sent q
Outcome true false q = Polls true q
Outcome false forked q = Polls false q

-- Whatever steps the two processes make, in any order: where fork and msgsnd work, the parent polls
-- or has got exactly the bytes of the message, and can always come to have them; where one of the
-- two fails, the parent polls, and its next poll leaves everything as it is.
pub message_received :
    (allowed forked : Bool) (q : Queue) (xs : List Act)
    → run (step allowed) (start forked) xs ≡ some q
    → Outcome allowed forked q
unfolding start
message_received true true q xs e =
    Sending-Sent q (run-keeps (step true) Sending step-Sending (start true) q xs not_sent e)
message_received true false q xs e =
    Silent-Polls true q
      (run-keeps (step true) (Silent true) (step-Silent true) (start false) q xs childless e)
message_received false true q xs e =
    Silent-Polls false q
      (run-keeps (step false) (Silent false) (step-Silent false) (start true) q xs unsent e)
message_received false false q xs e =
    Silent-Polls false q
      (run-keeps (step false) (Silent false) (step-Silent false) (start false) q xs childless e)
