-- ===== src/Chat/Child/Relay.antt =====
-- Multiprocessing/multiprocessingChatServer.cpp: the shared memory between the child processes.
use mathlib.Core.Path.{ap₂}
use linux_websocket.Prelude.{
  ℕ, zero, suc, ◌+◌, ◌*◌, ◌≤◌, ◌<◌, ◌≡◌, ◌∙◌, refl, sym, ap, ◌⊎◌, inl, inr, true, false, Bool, List,
  [], ◌∷◌, ◌++◌, ◌&&◌, arith, ◌==◌, Bool-cases, if◌then◌else◌, length,
}
use linux_websocket.Chat.{buffer_size}
use linux_websocket.Chat.Child.{
  Memory, Child, ChildEvent, Sent, Received, error, eof, got, Wait, fails, interrupted,
  returns_events, clear, fill, bytes_at, client_readable, pipe_readable, on_child_event,
  on_child_events, child_loop, run_child, terminated,
}

-- `a` is no address of the segment of client `k`.
abbrev pub Outside : ℕ → ℕ → Type 0
Outside k a = (a < k * buffer_size) ⊎ (k * buffer_size + buffer_size ≤ a)

-- What the loop keeps.
pub record Keeps (c d : Child) : Type 0 where
  pub idx : d.idx ≡ c.idx
  pub connfd : d.connfd ≡ c.connfd
  pub pipefd : d.pipefd ≡ c.pipefd
  pub elsewhere : (a : ℕ) → Outside c.idx a → d.share_mem a ≡ c.share_mem a

Keeps-same : (c : Child) (b : Bool) (l : List Sent) → Keeps c (record c { stop_child = b; log = l })
Keeps-same c b l = record { idx = refl; connfd = refl; pipefd = refl; elsewhere = λ a o. refl }

fill_outside :
    (m : Memory) (start a : ℕ) (bs : List ℕ)
    → (a < start) ⊎ (start + length bs ≤ a)
    → fill m start bs a ≡ m a
unfolding fill
fill_outside m start a [] o = refl
fill_outside m start a (b ∷ bs) o = ground (arith, fill_outside m (suc start) a bs)

clear_outside :
    (m : Memory) (start n a : ℕ) → (a < start) ⊎ (start + n ≤ a) → clear m start n a ≡ m a
unfolding clear
clear_outside m start n a o = ground arith

-- recv was given room for BUFFER_SIZE - 1 bytes.
abbrev pub Fits : Received (List ℕ) → Type 0
Fits (error e) = Unit {0}
Fits eof = Unit {0}
Fits (got bs) = length bs < buffer_size

module _ (c : Child) where
  pub client_readable-Keeps : (r : Received (List ℕ)) → Fits r → Keeps c (client_readable c r)
  unfolding client_readable
  client_readable-Keeps (error e) f = record {
    idx = refl;
    connfd = refl;
    pipefd = refl;
    elsewhere = λ a o. clear_outside c.share_mem (c.idx * buffer_size) buffer_size a o;
  }
  client_readable-Keeps eof f = record {
    idx = refl;
    connfd = refl;
    pipefd = refl;
    elsewhere = λ a o. clear_outside c.share_mem (c.idx * buffer_size) buffer_size a o;
  }
  client_readable-Keeps (got bs) f = record {
    idx = refl;
    connfd = refl;
    pipefd = refl;
    elsewhere = λ a o.
        fill_outside _ (c.idx * buffer_size) a bs (ground arith)
        ∙ clear_outside c.share_mem (c.idx * buffer_size) buffer_size a o;
  }

  pipe_readable-Keeps : (r : Received ℕ) → Keeps c (pipe_readable c r)
  unfolding pipe_readable
  pipe_readable-Keeps (error e) = Keeps-same c _ _
  pipe_readable-Keeps eof = Keeps-same c _ _
  pipe_readable-Keeps (got i) = Keeps-same c _ _

  on_child_event-Keeps : (ev : ChildEvent) → Fits ev.from_client → Keeps c (on_child_event c ev)
  unfolding on_child_event
  on_child_event-Keeps ev f = elim (Bool-cases ((ev.sockfd == c.connfd) && ev.readable)) [
    | inl client ↦ rw client (client_readable-Keeps ev.from_client f)
    | inr other ↦ rw other (elim (Bool-cases ((ev.sockfd == c.pipefd) && ev.readable)) [
      | inl pipe ↦ rw pipe (pipe_readable-Keeps ev.from_parent)
      | inr idle ↦ rw idle (Keeps-same c _ _)
    ])
  ]

Keeps-trans : {b c d : Child} → Keeps b c → Keeps c d → Keeps b d
Keeps-trans {b} {c} {d} p q = record {
  idx = q.idx ∙ p.idx;
  connfd = q.connfd ∙ p.connfd;
  pipefd = q.pipefd ∙ p.pipefd;
  elsewhere = λ a o. q.elsewhere a (rw p.idx o) ∙ p.elsewhere a o;
}

Keeps-if : {c d : Child} (b : Bool) → Keeps c d → Keeps c (if b then c else d)
Keeps-if {c} true k = Keeps-same c c.stop_child c.log
Keeps-if false k = k

abbrev pub AllFit : List ChildEvent → Type 0
AllFit [] = Unit {0}
AllFit (ev ∷ evs) = Fits ev.from_client × AllFit evs

on_child_events-Keeps :
    (c : Child) (evs : List ChildEvent) → AllFit evs → Keeps c (on_child_events c evs)
unfolding on_child_events
on_child_events-Keeps c [] f = Keeps-same c _ _
on_child_events-Keeps c (ev ∷ evs) f =
    Keeps-trans (on_child_event-Keeps c ev f.0)
      (on_child_events-Keeps (on_child_event c ev) evs f.1)

abbrev pub WaitsFit : List Wait → Type 0
WaitsFit [] = Unit {0}
WaitsFit (fails ∷ ws) = WaitsFit ws
WaitsFit (interrupted ∷ ws) = WaitsFit ws
WaitsFit (returns_events evs ∷ ws) = AllFit evs × WaitsFit ws

child_loop-Keeps : (c : Child) (ws : List Wait) → WaitsFit ws → Keeps c (child_loop c ws)
unfolding child_loop terminated
child_loop-Keeps c [] f = Keeps-same c _ _
child_loop-Keeps c (fails ∷ ws) f = Keeps-same c _ _
child_loop-Keeps c (interrupted ∷ ws) f =
    Keeps-if c.stop_child (
      Keeps-trans (Keeps-same c true c.log)
        (child_loop-Keeps (record c { stop_child = true }) ws f))
child_loop-Keeps c (returns_events evs ∷ ws) f = Keeps-if c.stop_child (
    Keeps-trans (on_child_events-Keeps c evs f.0) (child_loop-Keeps (on_child_events c evs) ws f.1))

-- Whatever events and signals a child process gets, as long as recv keeps to the room that it is
-- given, the process changes no byte of the shared memory outside its own segment.
pub run_child_elsewhere :
    (c : Child) (ws : List Wait)
    → WaitsFit ws
    → (a : ℕ) → Outside c.idx a
    → (run_child c ws).share_mem a ≡ c.share_mem a
unfolding run_child
run_child_elsewhere c ws f a o = (child_loop-Keeps c ws f).elsewhere a o

-- What send takes: the message, filled up with zeros.
abbrev pub zeros : ℕ → List ℕ
zeros zero = []
zeros (suc n) = 0 ∷ zeros n

bytes_at-zero :
    (m : Memory) (start n : ℕ)
    → ((a : ℕ) → start ≤ a → a < start + n → m a ≡ 0)
    → bytes_at m start n ≡ zeros n
unfolding bytes_at
bytes_at-zero m start zero z = refl
bytes_at-zero m start (suc n) z =
    ap₂ ◌∷◌ (z start (omega arith) (omega arith))
      (bytes_at-zero m (suc start) n (λ a l h. z a (omega arith) (omega arith)))

pub bytes_at-congr :
    (m k : Memory) (start n : ℕ)
    → ((a : ℕ) → start ≤ a → a < start + n → k a ≡ m a)
    → bytes_at k start n ≡ bytes_at m start n
unfolding bytes_at
bytes_at-congr m k start zero e = refl
bytes_at-congr m k start (suc n) e =
    ap₂ ◌∷◌ (e start (omega arith) (omega arith))
      (bytes_at-congr m k (suc start) n (λ a l h. e a (omega arith) (omega arith)))

bytes_at-fill :
    (m : Memory) (start n : ℕ) (bs : List ℕ)
    → ((a : ℕ) → start ≤ a → a < start + (length bs + n) → m a ≡ 0)
    → bytes_at (fill m start bs) start (length bs + n) ≡ bs ++ zeros n
unfolding fill bytes_at
bytes_at-fill m start n [] z =
    let e : 0 + n ≡ n = omega arith in rw e (bytes_at-zero m start n (λ a l h. z a l (omega arith)))
bytes_at-fill m start n (b ∷ bs) z =
    let e : suc (length bs) + n ≡ suc (length bs + n) = omega arith in
    let self : (start == start) ≡ true = ground arith in
    rw (e, self)
      (ap (◌∷◌ b) (
        bytes_at-congr (fill m (suc start) bs) _ (suc start) (length bs + n) (λ a l h. ground arith)
        ∙ bytes_at-fill m (suc start) n bs (λ a l h. z a (omega arith) (omega arith))))

-- The segment of the child that has read a message.
pub segment_written :
    (c : Child) (bs : List ℕ) (n : ℕ)
    → length bs + n ≡ buffer_size
    → bytes_at (client_readable c (got bs)).share_mem (c.idx * buffer_size) buffer_size
      ≡ bs ++ zeros n
unfolding client_readable clear
segment_written c bs n whole =
    ap (bytes_at _ (c.idx * buffer_size)) (sym whole)
    ∙ bytes_at-fill _ (c.idx * buffer_size) n bs (λ a l h. ground arith)

-- A client's message `bs` reaches the other clients: when the client's process has read it, and the
-- process of another client then reads that process's index from its own pipe, on the same shared
-- memory, this process sends its client `bs`, filled up with zeros to BUFFER_SIZE bytes. The first
-- process has sent the parent its index.
pub message_relayed :
    (c d : Child) (bs : List ℕ) (n : ℕ)
    → length bs + n ≡ buffer_size
    → d.share_mem ≡ (client_readable c (got bs)).share_mem
    → ((client_readable c (got bs)).log ≡ c.log ++ Sent.index c.pipefd c.idx ∷ [])
      × ((pipe_readable d (got c.idx)).log ≡ d.log ++ Sent.bytes d.connfd (bs ++ zeros n) ∷ [])
unfolding client_readable pipe_readable
message_relayed c d bs n whole shared = (
  refl,
  ap (λ b. d.log ++ Sent.bytes d.connfd b ∷ [])
      (ap (λ m. bytes_at m (c.idx * buffer_size) buffer_size) shared
        ∙ segment_written c bs n whole),
)
