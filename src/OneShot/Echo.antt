-- ===== src/OneShot/Echo.antt =====
-- The programs that serve one client: the bytes that reach it, and those that are printed.
use linux_websocket.Prelude.{
  ℕ, ◌-◌, ◌≡◌, ◌∙◌, refl, sym, ap, Bool, true, false, ◌&&◌, Option, none, some, List, [], ◌∷◌, ◌++◌,
  ltb, if◌then◌else◌, take, drop, take-drop, length, replicate,
}
use mathlib.Core.List.{append-nil, append_assoc}
use linux_websocket.OneShot.{Call, sends, prints, made, Network, serve_one}
use linux_websocket.OneShot.Descriptors.{listening, network}
use linux_websocket.OneShot.SendFile
use linux_websocket.OneShot.Splice
use linux_websocket.OneShot.Splice.{splice_size}
use linux_websocket.OneShot.Urgent
use linux_websocket.OneShot.Urgent.{Input, urgent, normal, receive, sig_urg, filled, buf_size}

abbrev pub sent_bytes : List Call → List ℕ
sent_bytes [] = []
sent_bytes (sends h bs ∷ cs) = bs ++ sent_bytes cs
sent_bytes (_ ∷ cs) = sent_bytes cs

-- The first `ret` bytes of each buffer that is printed.
abbrev pub texts : List Call → List (List ℕ)
texts [] = []
texts (prints (some ret) buffer ∷ cs) = take ret buffer ∷ texts cs
texts (_ ∷ cs) = texts cs

-- What the two calls of recv return, in order.
abbrev pub come_in : List Input → List (List ℕ)
come_in [] = []
come_in (urgent none e ∷ is) = come_in is
come_in (urgent (some bs) e ∷ is) = bs ∷ come_in is
come_in (normal b bs ∷ is) = (b ∷ bs) ∷ come_in is

take-length : (xs ys : List ℕ) → take (length xs) (xs ++ ys) ≡ xs
take-length [] ys = refl
take-length (x ∷ xs) ys = ap (◌∷◌ x) (take-length xs ys)

texts-receive :
    (errno : ℕ) (is : List Input) (cs : List Call)
    → texts ((receive errno is).0 ++ cs) ≡ come_in is ++ texts cs
unfolding receive sig_urg
texts-receive errno [] cs = refl
texts-receive errno (urgent none e ∷ is) cs = texts-receive errno is cs
texts-receive errno (urgent (some bs) e ∷ is) cs =
    rw (take-length bs (replicate (buf_size - length bs) 0), texts-receive errno is cs) refl
texts-receive errno (normal b bs ∷ is) cs =
    rw (take-length bs (replicate (buf_size - length (b ∷ bs)) 0), texts-receive errno is cs) refl

errno-receive : (errno : ℕ) (is : List Input) → (receive errno is).1 ≡ errno
unfolding receive sig_urg
errno-receive errno [] = refl
errno-receive errno (urgent none e ∷ is) = errno-receive errno is
errno-receive errno (urgent (some bs) e ∷ is) = errno-receive errno is
errno-receive errno (normal b bs ∷ is) = errno-receive errno is

send_file-bytes :
    (fd : ℕ) (above a b c d : Bool) (contents : List ℕ) (sent : ℕ)
    → ltb 0 fd ≡ above
    → sent_bytes (made (SendFile.main (some fd) (network a b c d) contents sent))
      ≡ (if above && (listening (network a b c d) && d) then take sent contents else [])
unfolding SendFile.main serve_one
send_file-bytes fd false a b c d contents sent e = rw e refl
send_file-bytes fd true false b c d contents sent e = rw e refl
send_file-bytes fd true true false c d contents sent e = rw e refl
send_file-bytes fd true true true false d contents sent e = rw e refl
send_file-bytes fd true true true true false contents sent e = rw e refl
send_file-bytes fd true true true true true contents sent e = rw e (append-nil (take sent contents))

-- What has come from the client, where anything has.
abbrev pub all_come : Option (List ℕ) → List ℕ
all_come none = []
all_come (some bs) = bs

two_takes :
    (n m : ℕ) (xs : List ℕ) → xs ≡ (take n (take m xs) ++ []) ++ (drop n (take m xs) ++ drop m xs)
two_takes n m xs =
    let inner = take-drop n (take m xs) in
    let outer = take-drop m xs in
    rw append-nil (
      sym
        (sym (append_assoc (take n (take m xs)) (drop n (take m xs)) (drop m xs)) ∙ rw inner outer))

-- The bytes that the first splice moves and the second does not, and those that the first leaves.
splice-bytes :
    (a b c d piped : Bool) (come : Option (List ℕ)) (out : Option ℕ)
    → (rest : List ℕ) × (all_come come
        ≡ sent_bytes (made (Splice.main (network a b c d) piped come out)) ++ rest)
unfolding Splice.main serve_one
splice-bytes false b c d piped come out = (all_come come, refl)
splice-bytes true false c d piped come out = (all_come come, refl)
splice-bytes true true false d piped come out = (all_come come, refl)
splice-bytes true true true false piped come out = (all_come come, refl)
splice-bytes true true true true false come out = (all_come come, refl)
splice-bytes true true true true true none out = ([], refl)
splice-bytes true true true true true (some []) out = ([], refl)
splice-bytes true true true true true (some (x ∷ bs)) none = (x ∷ bs, refl)
splice-bytes true true true true true (some (x ∷ bs)) (some n) = (
  drop n (take splice_size (x ∷ bs)) ++ drop splice_size (x ∷ bs),
  two_takes n splice_size (x ∷ bs),
)

urgent-texts :
    (a b c d sigaction : Bool) (errno : ℕ) (is : List Input)
    → texts (made (Urgent.main (network a b c d) sigaction errno is))
      ≡ (if listening (network a b c d) && (d && sigaction) then come_in is else [])
unfolding Urgent.main serve_one
urgent-texts false b c d s errno is = refl
urgent-texts true false c d s errno is = refl
urgent-texts true true false d s errno is = refl
urgent-texts true true true false s errno is = refl
urgent-texts true true true true false errno is = refl
urgent-texts true true true true true errno is = texts-receive errno is _ ∙ append-nil (come_in is)

-- Whatever the system calls return: the client of the file server gets the bytes that sendfile
-- takes, where the program gets so far; the one of the other server gets a beginning of what it has
-- sent; the program for urgent data prints, in order, what each recv of its loop and of its handler
-- returns, where it gets to them, and its handler leaves errno as it was.
pub bytes_moved :
    (fd : ℕ) (n : Network) (contents : List ℕ) (sent : ℕ)
    → (piped : Bool) (come : Option (List ℕ)) (out : Option ℕ)
    → (sigaction : Bool) (errno : ℕ) (is : List Input)
    → (sent_bytes (made (SendFile.main (some fd) n contents sent))
        ≡ (if ltb 0 fd && (listening n && n.accept) then take sent contents else []))
      × ((rest : List ℕ) × (all_come come
            ≡ sent_bytes (made (Splice.main n piped come out)) ++ rest))
      × (texts (made (Urgent.main n sigaction errno is))
          ≡ (if listening n && (n.accept && sigaction) then come_in is else []))
      × ((receive errno is).1 ≡ errno)
bytes_moved fd n contents sent piped come out sigaction errno is = (
  send_file-bytes fd (ltb 0 fd) n.socket n.bind n.listen n.accept contents sent refl,
  splice-bytes n.socket n.bind n.listen n.accept piped come out,
  urgent-texts n.socket n.bind n.listen n.accept sigaction errno is,
  errno-receive errno is,
)
