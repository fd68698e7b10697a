-- ===== src/MessageQueue.antt =====
-- Multiprocessing/msgQueueDemo.cpp: a child that sends one message, and a parent that polls the
-- queue until it has it. A step is one call of one process.
pub mod Polling
pub mod Tests
use linux_websocket.Prelude.{
  ℕ, ◌+◌, Bool, true, false, Option, none, some, List, [], ◌∷◌, ◌++◌, if◌then◌else◌, take,
}

abbrev pub buffer_size : ℕ
buffer_size = 256

-- struct mymsg, of which a queue keeps as many bytes of `mtext` as msgsnd is told to.
pub record Mymsg : Type 0 where
  pub mtype : ℕ
  pub mtext : List ℕ

-- The text of the message, without the byte 0 that ends the string.
abbrev pub hello_world : List ℕ
hello_world = b'h' ∷ b'e' ∷ b'l' ∷ b'l' ∷ b'o' ∷ b' ' ∷ b'w' ∷ b'o' ∷ b'r' ∷ b'l' ∷ b'd' ∷ []

abbrev pub child_buf : Mymsg
child_buf = record { mtype = 1; mtext = hello_world }

pub data ChildPc : Type 0 where
  no_child : ChildPc  -- fork fails
  sends : ChildPc  -- msgsnd
  exited : ChildPc
  aborted : ChildPc  -- its assert fails

-- The parent stays in the loop until it has a message, whose bytes it then has in `mtext`.
pub data ParentPc : Type 0 where
  polls : ParentPc
  received : (mtext : List ℕ) → ParentPc

pub record Queue : Type 0 where
  pub messages : List Mymsg
  pub child : ChildPc
  pub parent : ParentPc

-- After msgget and fork, of which `forked` is whether it works.
unfoldable pub start : (forked : Bool) → Queue
start forked = record { messages = []; child = if forked then sends else no_child; parent = polls }

-- `allowed` is whether msgsnd works.
abbrev pub child_step : (allowed : Bool) → ChildPc → Queue → Option Queue
child_step allowed sends q = some (
    if allowed
    then record q { messages = q.messages ++ child_buf ∷ []; child = exited }
    else record q { child = aborted })
child_step allowed _ q = none

-- msgrcv with the type 0 takes the first message, if there is one.
abbrev pub msgrcv : List Mymsg → Queue → Queue
msgrcv [] q = q
msgrcv (m ∷ ms) q = record q { messages = ms; parent = received (take buffer_size m.mtext) }

abbrev pub parent_step : ParentPc → Queue → Option Queue
parent_step polls q = some (msgrcv q.messages q)
parent_step (received text) q = none

pub data Act : Type 0 where
  by_child by_parent : Act

unfoldable pub step : (allowed : Bool) → Queue → Act → Option Queue
step allowed q by_child = child_step allowed q.child q
step allowed q by_parent = parent_step q.parent q
