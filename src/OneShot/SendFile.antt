-- ===== src/OneShot/SendFile.antt =====
-- IOfunction/sendFile6_3.cpp: a server that sends a file to one client.
use linux_websocket.Prelude.{ℕ, Option, none, some, List, [], ◌∷◌, ltb, take}
use linux_websocket.OneShot.{
  filefd, sock, connfd, opens, closes, sends, Ended, aborted, returned, after, asserting, Network,
  serve_one,
}

-- `sent` is what sendfile returns, of the bytes of the file.
abbrev pub send_file : (contents : List ℕ) → (sent : ℕ) → Ended
send_file contents sent =
    returned 0
      (sends connfd (take sent contents) ∷ closes connfd ∷ closes filefd ∷ closes sock ∷ [])

-- `fd` is what open returns, none where it is -1; the assert is `filefd>0`.
unfoldable pub main : (fd : Option ℕ) → Network → (contents : List ℕ) → (sent : ℕ) → Ended
unfolding serve_one
main none n contents sent = aborted []
main (some fd) n contents sent =
    after (opens filefd ∷ []) (asserting (ltb 0 fd) (serve_one n (send_file contents sent)))
