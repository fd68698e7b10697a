-- ===== src/OneShot/Tests.antt =====
-- The programs that serve one client: runs in which the calls work.
use linux_websocket.Prelude.{ℕ, ◌≡◌, refl, true, some, List, [], ◌∷◌}
use linux_websocket.OneShot.{pipefd_0, pipefd_1, sockfd, waits, opens, sock, connfd, Network}
use linux_websocket.OneShot.Descriptors.{open_at_end, descriptors_left}
use linux_websocket.OneShot.SendFile
use linux_websocket.OneShot.Splice
use linux_websocket.OneShot.Urgent
use linux_websocket.OneShot.Urgent.{Input, urgent, normal, receive}
use linux_websocket.OneShot.Connect
use linux_websocket.OneShot.Connect.{connected, failed}

abbrev up : Network
up = record { socket = true; bind = true; listen = true; accept = true }

abbrev hello : List ℕ
hello = b'h' ∷ b'i' ∷ []

abbrev inputs : List Input
inputs = normal b'h' [] ∷ urgent (some (b'!' ∷ [])) 0 ∷ normal b'i' [] ∷ []

descriptors_left_example :
    (open_at_end (SendFile.main (some 3) up hello 2) ≡ some [])
    × (open_at_end (Splice.main up true (some hello) (some 2)) ≡ some (pipefd_1 ∷ pipefd_0 ∷ []))
    × (open_at_end (Urgent.main up true 0 inputs) ≡ some [])
    × (open_at_end (Connect.main 3 (some 3) true (failed true)) ≡ some (sockfd ∷ []))
descriptors_left_example =
    descriptors_left 3 up hello 2 true (some hello) (some 2) true 0 inputs 3 (some 3) true
      (failed true)

-- The client ends before it sends anything.
waits_for_bytes :
    Splice.main up true (some []) (some 0)
    ≡ waits (opens sock ∷ opens connfd ∷ opens pipefd_0 ∷ opens pipefd_1 ∷ [])
unfolding Splice.main
waits_for_bytes = refl
