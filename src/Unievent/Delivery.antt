-- ===== src/Unievent/Delivery.antt =====
-- Signal/unievent.cpp: the way of the signals from the handler to the loop.
use mathlib.Core.Path.{ap₂}
use mathlib.Core.List.{append_assoc, append-nil}
use linux_websocket.Prelude.{
  ℕ, ◌%◌, ◌≡◌, ◌∙◌, inl, inr, refl, sym, ap, Bool, true, false, ◌&&◌, ◌||◌, List, [], ◌∷◌, ◌++◌,
  ◌==◌, if◌then◌else◌, map, take, drop, take-drop, arith, Bool-cases,
}
use linux_websocket.Unievent.{
  sigchld, sighup, Action, adds_fd, sets_nonblocking, handles, caught, closes, Server, sigterm,
  sigint, emit, on_signals, read_signals, Event, on_event, Turn, event, raised, sig_handler, Wait,
  fails, returns,
}

-- The signals that the loop has printed.
abbrev pub caught_in : List Action → List ℕ
caught_in [] = []
caught_in (caught sig ∷ acts) = sig ∷ caught_in acts
caught_in (_ ∷ acts) = caught_in acts

abbrev pub stops : List ℕ → Bool
stops [] = false
stops (sig ∷ sigs) = (sig == sigterm) || (sig == sigint) || stops sigs

-- The bytes that the handler has put into the pipe.
abbrev pub raised_in : List Turn → List ℕ
raised_in [] = []
raised_in (event ev ∷ ts) = raised_in ts
raised_in (raised sig true ∷ ts) = sig % 256 ∷ raised_in ts
raised_in (raised sig false ∷ ts) = raised_in ts

abbrev pub raised_by : List Wait → List ℕ
raised_by [] = []
raised_by (fails ∷ ws) = raised_by ws
raised_by (returns ts ∷ ws) = raised_in ts ++ raised_by ws

caught_in-append : (xs ys : List Action) → caught_in (xs ++ ys) ≡ caught_in xs ++ caught_in ys
caught_in-append [] ys = refl
caught_in-append (caught sig ∷ xs) ys = ap (◌∷◌ sig) (caught_in-append xs ys)
caught_in-append (adds_fd _ _ ∷ xs) ys = caught_in-append xs ys
caught_in-append (sets_nonblocking _ ∷ xs) ys = caught_in-append xs ys
caught_in-append (handles _ ∷ xs) ys = caught_in-append xs ys
caught_in-append (closes _ ∷ xs) ys = caught_in-append xs ys

stops-append : (xs ys : List ℕ) → stops (xs ++ ys) ≡ (stops xs || stops ys)
stops-append [] ys = refl
stops-append (x ∷ xs) ys = ground (arith, stops-append xs ys)

-- The loop is stopped just where it has printed a signal that stops it.
abbrev pub Told : Server → Type 0
Told s = s.stop_server ≡ stops (caught_in s.log)

-- The signals that are printed or still in the pipe.
abbrev pub known : Server → List ℕ
known s = caught_in s.log ++ s.pipe

-- From `s` to `t`, where `bytes` have gone into the pipe.
pub record Delivers (s : Server) (bytes : List ℕ) (t : Server) : Type 0 where
  pub kept : known t ≡ known s ++ bytes
  pub told : Told t

-- What on_signals leaves.
abbrev heard : Server → List ℕ → Server
heard s sigs = record s {
  stop_server = s.stop_server || stops sigs;
  log = s.log ++ map caught sigs;
}

abbrev left : Server → Bool → List Action → Server
left s b acts = record s { stop_server = b; log = acts }

or_false : (b : Bool) → (b || false) ≡ b
or_false b = ground arith

-- The switch of the loop, as it sets stop_server.
switch :
    (s : Server) (b rest : Bool) (sig : ℕ) (acts : List Action)
    → (if (sig == sigchld) || (sig == sighup)
        then left s (b || rest) acts
        else if (sig == sigterm) || (sig == sigint)
        then left s (true || rest) acts
        else left s (b || rest) acts)
      ≡ left s (b || ((sig == sigterm) || (sig == sigint) || rest)) acts
switch s b rest sig acts = ground arith

on_signals-heard : (s : Server) (sigs : List ℕ) → on_signals s sigs ≡ heard s sigs
unfolding on_signals
on_signals-heard s [] = ap₂ (left s) (sym (or_false s.stop_server)) (sym (append-nil s.log))
on_signals-heard s (sig ∷ sigs) =
    let t = emit s (caught sig ∷ []) in
    let plain = on_signals-heard t sigs in
    let ends = on_signals-heard (record t { stop_server = true }) sigs in
    rw (plain, ends)
      (switch s s.stop_server (stops sigs) sig (s.log ++ caught sig ∷ [] ++ map caught sigs)
        ∙ ap (left s (s.stop_server || stops (sig ∷ sigs)))
            (append_assoc s.log (caught sig ∷ []) (map caught sigs)))

caught_in-caught : (sigs : List ℕ) → caught_in (map caught sigs) ≡ sigs
caught_in-caught [] = refl
caught_in-caught (sig ∷ sigs) = ap (◌∷◌ sig) (caught_in-caught sigs)

-- A server whose loop prints a part of the pipe.
heard-Delivers :
    (s : Server) (now later : List ℕ)
    → now ++ later ≡ s.pipe
    → Told s
    → Delivers s [] (heard (record s { pipe = later }) now)
heard-Delivers s now later e told =
    let c =
      caught_in-append s.log (map caught now)
      ∙ ap (λ xs. caught_in s.log ++ xs) (caught_in-caught now) in
    record {
      kept =
          ap (λ xs. xs ++ later) c
          ∙ append_assoc (caught_in s.log) now later
          ∙ ap (λ xs. caught_in s.log ++ xs) e
          ∙ sym (append-nil _);
      told =
          ap (λ b. b || stops now) told
          ∙ sym (stops-append (caught_in s.log) now)
          ∙ ap stops (sym c);
    }

read_signals-Delivers : (s : Server) → Told s → Delivers s [] (read_signals s)
unfolding read_signals
read_signals-Delivers s told =
    let now = take 1024 s.pipe in
    rw (on_signals-heard (record s { pipe = drop 1024 s.pipe }) now)
      (heard-Delivers s now (drop 1024 s.pipe) (take-drop 1024 s.pipe) told)

-- Only the log changes, by calls that print no signal.
emit-Delivers :
    (s : Server) (acts : List Action) → caught_in acts ≡ [] → Told s → Delivers s [] (emit s acts)
emit-Delivers s acts e told =
    let c = caught_in-append s.log acts ∙ ap (λ xs. caught_in s.log ++ xs) e ∙ append-nil _ in
    record { kept = ap (λ xs. xs ++ s.pipe) c ∙ sym (append-nil _); told = told ∙ ap stops (sym c) }

pub Delivers-same : (s : Server) → Told s → Delivers s [] s
Delivers-same s told = record { kept = sym (append-nil _); told = told }

pub on_event-Delivers : (s : Server) (ev : Event) → Told s → Delivers s [] (on_event s ev)
unfolding on_event
on_event-Delivers s ev told = elim (Bool-cases (ev.sockfd == s.listenfd)) [
  | inl new ↦
      rw new
        (emit-Delivers s (adds_fd s.epollfd ev.connfd ∷ sets_nonblocking ev.connfd ∷ []) refl told)
  | inr old ↦ rw old (elim (Bool-cases ((ev.sockfd == s.pipe_read) && ev.readable)) [
    | inl pipe ↦ rw pipe (read_signals-Delivers s told)
    | inr idle ↦ rw idle (Delivers-same s told)
  ])
]

pub sig_handler-Delivers :
    (s : Server) (sig : ℕ) (has_room : Bool)
    → Told s
    → Delivers s (raised_in (raised sig has_room ∷ [])) (sig_handler s sig has_room)
unfolding sig_handler
sig_handler-Delivers s sig true told = record {
  kept = sym (append_assoc (caught_in s.log) s.pipe _);
  told = told;
}
sig_handler-Delivers s sig false told = Delivers-same s told

pub Delivers-trans :
    {s t u : Server} (bs cs : List ℕ) → Delivers s bs t → Delivers t cs u → Delivers s (bs ++ cs) u
Delivers-trans {s} bs cs p q = record {
  kept = q.kept ∙ ap (λ xs. xs ++ cs) p.kept ∙ append_assoc (known s) bs cs;
  told = q.told;
}
