-- ===== src/OneShot/Splice.antt =====
-- IOfunction/spliceDemo6_4.c: a server that gives one client back what it sends, through a pipe.
use linux_websocket.Prelude.{ℕ, Bool, Option, none, some, List, [], ◌∷◌, take}
use linux_websocket.OneShot.{
  sock, connfd, pipefd_0, pipefd_1, opens, closes, sends, Ended, aborted, waits, returned, after,
  asserting, Network, serve_one,
}

abbrev pub splice_size : ℕ
splice_size = 32768

-- The second splice, of which `out` is the return, none where it is -1. It waits where the pipe is
-- empty, since the program has the pipe's other end open.
abbrev pub to_client : (pipe : List ℕ) → (out : Option ℕ) → Ended
to_client [] out = waits []
to_client (b ∷ bs) none = aborted []
to_client (b ∷ bs) (some n) =
    returned 0 (sends connfd (take n (b ∷ bs)) ∷ closes connfd ∷ closes sock ∷ [])

-- The first splice moves the bytes that have come: none of them where the client has ended, `none`
-- where it fails.
abbrev pub through_pipe : (come : Option (List ℕ)) → (out : Option ℕ) → Ended
through_pipe none out = aborted []
through_pipe (some bs) out = to_client (take splice_size bs) out

-- `piped` is whether pipe works.
unfoldable pub main : Network → (piped : Bool) → (come : Option (List ℕ)) → (out : Option ℕ) → Ended
unfolding serve_one
main n piped come out =
    serve_one n
      (asserting piped (after (opens pipefd_0 ∷ opens pipefd_1 ∷ []) (through_pipe come out)))
