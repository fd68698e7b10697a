-- ===== src/OneShot/Urgent.antt =====
-- Signal/sigUrgent.cpp: a server that prints what one client sends, urgent data by the handler of
-- SIGURG.
use linux_websocket.Prelude.{
  ℕ, ◌-◌, Bool, Option, none, some, List, [], ◌∷◌, ◌++◌, length, replicate,
}
use linux_websocket.OneShot.{
  sock, connfd, Call, closes, prints, Ended, returned, after, asserting, Network, serve_one,
}

abbrev pub buf_size : ℕ
buf_size = 1024

-- The buffer after memset and recv.
abbrev pub filled : List ℕ → List ℕ
filled bs = bs ++ replicate (buf_size - length bs) 0

-- The handler, of which `come` is what its recv returns, and `recv_errno` the errno after it: what
-- it prints, and the errno that it leaves.
unfoldable pub sig_urg : (errno : ℕ) → (come : Option (List ℕ)) → (recv_errno : ℕ) → List Call × ℕ
sig_urg errno none recv_errno = (prints none (filled []) ∷ [], errno)
sig_urg errno (some bs) recv_errno = (prints (some (length bs)) (filled bs) ∷ [], errno)

-- What a recv of the loop comes to: it returns bytes, or SIGURG comes and the handler's recv
-- returns `come` and sets errno. After the handler recv is restarted.
pub data Input : Type 0 where
  urgent : (come : Option (List ℕ)) (recv_errno : ℕ) → Input
  normal : (b : ℕ) (bs : List ℕ) → Input

-- The loop, until recv returns 0 or -1.
unfoldable pub receive : (errno : ℕ) → List Input → List Call × ℕ
unfolding sig_urg
receive errno [] = ([], errno)
receive errno (urgent come recv_errno ∷ is) =
    let (cs, left) = sig_urg errno come recv_errno in
    let (ds, last) = receive left is in (cs ++ ds, last)
receive errno (normal b bs ∷ is) =
    let (ds, last) = receive errno is in
    (prints (some (length (b ∷ bs))) (filled (b ∷ bs)) ∷ ds, last)

-- `sigaction` is whether addsig's call works.
unfoldable pub main : Network → (sigaction : Bool) → (errno : ℕ) → List Input → Ended
unfolding serve_one receive
main n sigaction errno is = serve_one n (
    asserting sigaction
      (after (receive errno is).0 (returned 0 (closes connfd ∷ closes sock ∷ []))))
