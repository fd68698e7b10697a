-- ===== src/Unievent/Rounds.antt =====
-- Signal/unievent.cpp: the rounds of the loop, until a signal or an error ends it.
use linux_websocket.Prelude.{
  ◌≡◌, ◌⊎◌, inl, inr, refl, ap, Bool, true, false, List, [], ◌∷◌, ◌++◌, if◌then◌else◌,
}
use linux_websocket.Unievent.{
  Server, Turn, event, raised, on_event, sig_handler, on_turns, Wait, fails, returns, serve,
}
use linux_websocket.Unievent.Delivery.{
  Told, Delivers, raised_in, raised_by, Delivers-same, Delivers-trans, on_event-Delivers,
  sig_handler-Delivers,
}

pub on_turns-Delivers :
    (s : Server) (ts : List Turn) → Told s → Delivers s (raised_in ts) (on_turns s ts)
unfolding on_turns
on_turns-Delivers s [] told = Delivers-same s told
on_turns-Delivers s (event ev ∷ ts) told =
    let p = on_event-Delivers s ev told in
    Delivers-trans [] (raised_in ts) p (on_turns-Delivers (on_event s ev) ts p.told)
on_turns-Delivers s (raised sig true ∷ ts) told =
    let p = sig_handler-Delivers s sig true told in
    Delivers-trans _ (raised_in ts) p (on_turns-Delivers (sig_handler s sig true) ts p.told)
on_turns-Delivers s (raised sig false ∷ ts) told =
    let p = sig_handler-Delivers s sig false told in
    Delivers-trans _ (raised_in ts) p (on_turns-Delivers (sig_handler s sig false) ts p.told)

-- Each of the rounds starts while the server is not stopped, and only the last can fail.
abbrev pub Runs : Server → List Wait → Type 0
Runs s [] = Unit
Runs s (fails ∷ ws) = (s.stop_server ≡ false) × (ws ≡ [])
Runs s (returns ts ∷ ws) = (s.stop_server ≡ false) × Runs (on_turns s ts) ws

abbrev pub has_failed : List Wait → Bool
has_failed [] = false
has_failed (fails ∷ ws) = true
has_failed (returns ts ∷ ws) = has_failed ws

-- The loop makes the rounds `done` of `ws`, and leaves the state `t` and the rounds `rest`.
pub record Served (s : Server) (ws : List Wait) (t : Server) (rest : List Wait) : Type 0 where
  pub done : List Wait
  pub all : ws ≡ done ++ rest
  pub runs : Runs s done
  pub delivers : Delivers s (raised_by done) t
  pub ended : (rest ≡ []) ⊎ ((t.stop_server ≡ true) ⊎ (has_failed done ≡ true))

stopped : (s : Server) (ws : List Wait) → s.stop_server ≡ true → Told s → Served s ws s ws
stopped s ws e told = record {
  done = [];
  all = refl;
  runs = tt;
  delivers = Delivers-same s told;
  ended = inr (inl e);
}

if-Served :
    (b : Bool) (s : Server) (ws : List Wait) (p q : Server × List Wait)
    → (b ≡ true → Served s ws p.0 p.1)
    → (b ≡ false → Served s ws q.0 q.1)
    → Served s ws (if b then p else q).0 (if b then p else q).1
if-Served true s ws p q f g = f refl
if-Served false s ws p q f g = g refl

failed : (s : Server) (ws : List Wait) → s.stop_server ≡ false → Told s → Served s (fails ∷ ws) s ws
failed s ws e told = record {
  done = fails ∷ [];
  all = refl;
  runs = (e, refl);
  delivers = Delivers-same s told;
  ended = inr (inr refl);
}

went_on :
    (s t : Server) (ts : List Turn) (ws rest : List Wait)
    → s.stop_server ≡ false
    → Told s
    → Served (on_turns s ts) ws t rest
    → Served s (returns ts ∷ ws) t rest
went_on s t ts ws rest e told v = record {
  done = returns ts ∷ v.done;
  all = ap (◌∷◌ (returns ts)) v.all;
  runs = (e, v.runs);
  delivers =
      Delivers-trans (raised_in ts) (raised_by v.done) (on_turns-Delivers s ts told) v.delivers;
  ended = v.ended;
}

-- Where `s` is stopped just if a SIGTERM or SIGINT is among the signals that it has printed, the
-- loop makes a first part of the rounds, each while the server is not stopped, and ends where no
-- round is left, the server is stopped or epoll_wait has failed. In the end, the signals that are
-- printed or still in the pipe are those of the start and then the ones that the handler has put
-- there, in order, and again the server is stopped just if it has printed a SIGTERM or SIGINT.
pub serve-Served :
    (s : Server) (ws : List Wait) → Told s → Served s ws (serve s ws).0 (serve s ws).1
unfolding serve
serve-Served s [] told = record {
  done = [];
  all = refl;
  runs = tt;
  delivers = Delivers-same s told;
  ended = inl refl;
}
serve-Served s (fails ∷ ws) told =
    if-Served s.stop_server s (fails ∷ ws) (s, fails ∷ ws) (s, ws)
      (λ e. stopped s (fails ∷ ws) e told) (λ e. failed s ws e told)
serve-Served s (returns ts ∷ ws) told =
    if-Served s.stop_server s (returns ts ∷ ws) (s, returns ts ∷ ws) (serve (on_turns s ts) ws)
      (λ e. stopped s (returns ts ∷ ws) e told)
      (λ e.
        went_on s (serve (on_turns s ts) ws).0 ts ws (serve (on_turns s ts) ws).1 e told
          (serve-Served (on_turns s ts) ws (on_turns-Delivers s ts told).told))
