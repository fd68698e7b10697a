-- ===== src/OneShot/Descriptors.antt =====
-- The programs that serve one client: which descriptors they leave open.
use linux_websocket.Prelude.{
  ℕ, ◌≡◌, refl, ap, Bool, true, false, not, ◌&&◌, ◌||◌, Option, none, some, List, [], ◌∷◌, ◌++◌,
  ◌==◌, ltb, leb, if◌then◌else◌,
}
use linux_websocket.OneShot.{
  Handle, filefd, sock, connfd, pipefd_0, pipefd_1, sockfd, Call, opens, closes, Ended, returned,
  Network, serve_one,
}
use linux_websocket.OneShot.SendFile
use linux_websocket.OneShot.Splice
use linux_websocket.OneShot.Splice.{through_pipe}
use linux_websocket.OneShot.Urgent
use linux_websocket.OneShot.Urgent.{Input, urgent, normal, receive, sig_urg}
use linux_websocket.OneShot.Connect
use linux_websocket.OneShot.Connect.{Connected, timeout_connect, connected, failed}

abbrev number : Handle → ℕ
number filefd = 0
number sock = 1
number connfd = 2
number pipefd_0 = 3
number pipefd_1 = 4
number sockfd = 5

abbrev removed : Handle → List Handle → List Handle
removed h [] = []
removed h (g ∷ gs) = let rest = removed h gs in if number g == number h then rest else g ∷ rest

-- The descriptors that are open after some calls, of those that were open before.
abbrev left : List Handle → List Call → List Handle
left hs [] = hs
left hs (opens h ∷ cs) = left (h ∷ hs) cs
left hs (closes h ∷ cs) = left (removed h hs) cs
left hs (_ ∷ cs) = left hs cs

-- The descriptors that are open when the program returns, where it does.
abbrev pub open_at_end : Ended → Option (List Handle)
open_at_end (returned code cs) = some (left [] cs)
open_at_end _ = none

-- The server gets as far as accept.
abbrev pub listening : Network → Bool
listening n = n.socket && (n.bind && n.listen)

abbrev pub network : (a b c d : Bool) → Network
network a b c d = record { socket = a; bind = b; listen = c; accept = d }

send_file-left :
    (fd : ℕ) (above a b c d : Bool) (contents : List ℕ) (sent : ℕ)
    → ltb 0 fd ≡ above
    → open_at_end (SendFile.main (some fd) (network a b c d) contents sent) ≡ (
        if above && listening (network a b c d) then some (if d then [] else filefd ∷ []) else none)
unfolding SendFile.main serve_one
send_file-left fd false a b c d contents sent e = rw e refl
send_file-left fd true false b c d contents sent e = rw e refl
send_file-left fd true true false c d contents sent e = rw e refl
send_file-left fd true true true false d contents sent e = rw e refl
send_file-left fd true true true true false contents sent e = rw e refl
send_file-left fd true true true true true contents sent e = rw e refl

-- Both splices work, and the first moves some bytes.
abbrev pub spliced : Option (List ℕ) → Option ℕ → Bool
spliced (some (b ∷ bs)) (some n) = true
spliced _ _ = false

splice-left :
    (a b c d piped : Bool) (come : Option (List ℕ)) (out : Option ℕ)
    → open_at_end (Splice.main (network a b c d) piped come out) ≡ (
        if listening (network a b c d) && (not d || (piped && spliced come out))
        then some (if d then pipefd_1 ∷ pipefd_0 ∷ [] else [])
        else none)
unfolding Splice.main serve_one
splice-left false b c d piped come out = refl
splice-left true false c d piped come out = refl
splice-left true true false d piped come out = refl
splice-left true true true false piped come out = refl
splice-left true true true true false come out = refl
splice-left true true true true true none out = refl
splice-left true true true true true (some []) out = refl
splice-left true true true true true (some (x ∷ bs)) none = refl
splice-left true true true true true (some (x ∷ bs)) (some n) = refl

left-receive :
    (hs : List Handle) (errno : ℕ) (is : List Input) (cs : List Call)
    → left hs ((receive errno is).0 ++ cs) ≡ left hs cs
unfolding receive sig_urg
left-receive hs errno [] cs = refl
left-receive hs errno (urgent none e ∷ is) cs = left-receive hs errno is cs
left-receive hs errno (urgent (some bs) e ∷ is) cs = left-receive hs errno is cs
left-receive hs errno (normal b bs ∷ is) cs = left-receive hs errno is cs

urgent-left :
    (a b c d sigaction : Bool) (errno : ℕ) (is : List Input)
    → open_at_end (Urgent.main (network a b c d) sigaction errno is)
      ≡ (if listening (network a b c d) && (not d || sigaction) then some [] else none)
unfolding Urgent.main serve_one
urgent-left false b c d s errno is = refl
urgent-left true false c d s errno is = refl
urgent-left true true false d s errno is = refl
urgent-left true true true false s errno is = refl
urgent-left true true true true false errno is = refl
urgent-left true true true true true errno is =
    ap some (left-receive (connfd ∷ sock ∷ []) errno is _)

connect-left :
    (few : Bool) (argc : ℕ) (fd : Option ℕ) (set : Bool) (c : Connected)
    → leb argc 2 ≡ few
    → open_at_end (Connect.main argc fd set c) ≡ (
        if few
        then some []
        else elim fd [ none ↦ none | some k ↦ if set then some (sockfd ∷ []) else none ])
unfolding Connect.main timeout_connect
connect-left true argc fd set c e = rw e refl
connect-left false argc none set c e = rw e refl
connect-left false argc (some k) false c e = rw e refl
connect-left false argc (some k) true connected e = rw e refl
connect-left false argc (some k) true (failed p) e = rw e refl

-- What is open when a program returns, and when it does return, whatever its system calls return:
-- the server of a file leaves the file open where accept fails, and nothing otherwise; the one that
-- gives back leaves both ends of its pipe open where it has served its client; the one for urgent
-- data leaves nothing open; and the client that connects leaves its socket open, connected or not.
pub descriptors_left :
    (fd : ℕ) (n : Network) (contents : List ℕ) (sent : ℕ)
    → (piped : Bool) (come : Option (List ℕ)) (out : Option ℕ)
    → (sigaction : Bool) (errno : ℕ) (is : List Input)
    → (argc : ℕ) (socket : Option ℕ) (set : Bool) (c : Connected)
    → (open_at_end (SendFile.main (some fd) n contents sent)
        ≡ (if ltb 0 fd && listening n then some (if n.accept then [] else filefd ∷ []) else none))
      × (open_at_end (Splice.main n piped come out) ≡ (
          if listening n && (not n.accept || (piped && spliced come out))
          then some (if n.accept then pipefd_1 ∷ pipefd_0 ∷ [] else [])
          else none))
      × (open_at_end (Urgent.main n sigaction errno is)
          ≡ (if listening n && (not n.accept || sigaction) then some [] else none))
      × (open_at_end (Connect.main argc socket set c) ≡ (
          if leb argc 2
          then some []
          else elim socket [ none ↦ none | some k ↦ if set then some (sockfd ∷ []) else none ]))
descriptors_left fd n contents sent piped come out sigaction errno is argc socket set c = (
  send_file-left fd (ltb 0 fd) n.socket n.bind n.listen n.accept contents sent refl,
  splice-left n.socket n.bind n.listen n.accept piped come out,
  urgent-left n.socket n.bind n.listen n.accept sigaction errno is,
  connect-left (leb argc 2) argc socket set c refl,
)
