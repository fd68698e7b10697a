-- ===== src/OneShot.antt =====
-- IOfunction/sendFile6_3.cpp, IOfunction/spliceDemo6_4.c, Signal/sigUrgent.cpp and
-- Timer/socketTimeout.cpp: programs that serve one client, or are one. A program takes the results
-- of its system calls.
pub mod Connect
pub mod Descriptors
pub mod Echo
pub mod SendFile
pub mod Splice
pub mod Tests
pub mod Urgent
use linux_websocket.Prelude.{
  ℕ, Bool, true, false, Option, none, some, List, [], ◌∷◌, ◌++◌, if◌then◌else◌,
}

-- The variables that hold a descriptor.
pub data Handle : Type 0 where
  filefd sock connfd pipefd_0 pipefd_1 sockfd : Handle

pub data Call : Type 0 where
  opens : Handle → Call
  closes : Handle → Call
  sends : Handle → List ℕ → Call  -- the bytes that go out
  prints : (ret : Option ℕ) (buffer : List ℕ) → Call  -- the ret of recv, none where it is -1

-- A program that ends by a failed assert, that waits in a call for ever, that reads or deletes by a
-- pointer that is not set, or that returns.
pub data Ended : Type 0 where
  aborted : List Call → Ended
  waits : List Call → Ended
  wild : List Call → Ended
  returned : (code : ℕ) → List Call → Ended

abbrev pub made : Ended → List Call
made (aborted cs) = cs
made (waits cs) = cs
made (wild cs) = cs
made (returned code cs) = cs

-- Calls that come before.
abbrev pub after : List Call → Ended → Ended
after cs (aborted ds) = aborted (cs ++ ds)
after cs (waits ds) = waits (cs ++ ds)
after cs (wild ds) = wild (cs ++ ds)
after cs (returned code ds) = returned code (cs ++ ds)

-- What socket, bind, listen and accept return: whether they work.
pub record Network : Type 0 where
  pub socket : Bool
  pub bind : Bool
  pub listen : Bool
  pub accept : Bool

-- The assert of a call that works or fails.
abbrev pub asserting : Bool → Ended → Ended
asserting ok rest = if ok then rest else aborted []

-- `serve` is what the program does with the client; where accept fails it prints that.
unfoldable pub serve_one : Network → (serve : Ended) → Ended
serve_one n serve = asserting n.socket (
    after (opens sock ∷ []) (
      asserting n.bind (
        asserting n.listen
          (if n.accept then after (opens connfd ∷ []) serve else returned 0 (closes sock ∷ [])))))
