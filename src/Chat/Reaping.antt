-- ===== src/Chat/Reaping.antt =====
-- Multiprocessing/multiprocessingChatServer.cpp: the loop over waitpid, and the shutdown.
use mathlib.Core.List.{Perm}
use linux_websocket.Prelude.{
  ℕ, ◌+◌, ◌<◌, ◌≡◌, refl, ◌≢◌, true, false, List, [], ◌∷◌, arith, ◌==◌, length,
}
use linux_websocket.Chat.{
  Server, Pid, running, sigchld, sigterm, drop_user, reap, reap_all, stop_when_empty, stop_children,
  kill_from, on_signal, on_signals, emit,
}
use linux_websocket.Chat.Table.{
  IsConsistent, Serves, table, reaped, reap-reaped, reaped-IsConsistent, reaped-Serves, reaped-Perm,
}

-- Each of the pids is a user's child.
abbrev pub AllServe : Server → List Pid → Type 0
AllServe s [] = Unit {0}
AllServe s (p ∷ ps) = ((k : ℕ) × Serves s p k) × AllServe s ps

abbrev pub NotIn : Pid → List Pid → Type 0
NotIn p [] = Unit {0}
NotIn p (q ∷ qs) = (q ≢ p) × NotIn p qs

abbrev pub Apart : List Pid → Type 0
Apart [] = Unit {0}
Apart (p ∷ ps) = NotIn p ps × Apart ps

-- What a round of reaping leaves: a consistent server with `n` users less.
pub record Reaped (s : Server) (n : ℕ) (t : Server) : Type 0 where
  pub consistent : IsConsistent t
  pub fewer : t.user_count + n ≡ s.user_count
  pub terminate : t.terminate ≡ s.terminate
  pub stop_server : t.stop_server ≡ s.stop_server

AllServe-reaped :
    {s : Server} {p : Pid} {k : ℕ} (c : IsConsistent s) (live : Serves s p k) (ps : List Pid)
    → NotIn p ps
    → AllServe s ps
    → AllServe (reaped s p k) ps
AllServe-reaped c live [] n a = tt
AllServe-reaped c live (q ∷ qs) n a =
    (reaped-Serves c live a.0.1 n.0, AllServe-reaped c live qs n.1 a.1)

-- When a user's child has ended, and the tables are consistent, the handler takes out this user: no
-- index is out of range, the tables stay consistent, and the collection of users loses just that
-- one.
pub reap-Perm :
    (s : Server) (pid : Pid) (k : ℕ)
    → IsConsistent s
    → Serves s pid k
    → (t : Server) × (reap s pid ≡ running t)
      × Reaped s 1 t
      × Perm (table s.users s.user_count) (s.users k ∷ table t.users t.user_count)
unfolding drop_user
reap-Perm s pid k c live = (
  reaped s pid k,
  reap-reaped c live,
  record {
    consistent = reaped-IsConsistent c live;
    fewer = omega (arith, live.slot);
    terminate = refl;
    stop_server = refl;
  },
  reaped-Perm c live,
)

pub reap_all-Reaped :
    (s : Server) (pids : List Pid)
    → IsConsistent s
    → AllServe s pids
    → Apart pids
    → (t : Server) × (reap_all s pids ≡ running t) × Reaped s (length pids) t
unfolding reap_all drop_user
reap_all-Reaped s [] c a d =
    (s, refl, record { consistent = c; fewer = omega arith; terminate = refl; stop_server = refl })
reap_all-Reaped s (p ∷ ps) c a d =
    let live = a.0.1 in
    let t₀ = reaped s p a.0.0 in
    let (t, e, r) =
      reap_all-Reaped t₀ ps (reaped-IsConsistent c live) (AllServe-reaped c live ps d.0 a.1) d.1 in
    (
      t,
      rw (reap-reaped c live) e,
      record {
        consistent = r.consistent;
        fewer = omega (arith, live.slot, r.fewer);
        terminate = r.terminate;
        stop_server = r.stop_server;
      },
    )

-- The server that has told its children to stop.
abbrev told : Server → Server
told s = record (emit s (kill_from s.users 0 s.user_count)) { terminate = true }

AllServe-told : (s : Server) (ps : List Pid) → AllServe s ps → AllServe (told s) ps
AllServe-told s [] a = tt
AllServe-told s (p ∷ ps) a =
    ((a.0.0, record { slot = a.0.1.slot; process = a.0.1.process }), AllServe-told s ps a.1)

-- If a server with users and consistent tables gets SIGTERM, and then one SIGCHLD on which waitpid
-- returns the children of all users, in any order and each once, no user is left and the server
-- stops.
pub sigterm_stops :
    (s : Server) (pids : List Pid)
    → IsConsistent s
    → 0 < s.user_count
    → AllServe s pids
    → Apart pids
    → length pids ≡ s.user_count
    → (t : Server) × (on_signals s (sigterm ∷ sigchld pids ∷ []) ≡ running t)
      × (t.stop_server ≡ true)
      × (t.user_count ≡ 0)
unfolding on_signals on_signal stop_children stop_when_empty
sigterm_stops s pids c pos a d e =
    let some_users : (s.user_count == 0) ≡ false = ground arith in
    let (t, run, r) =
      reap_all-Reaped (told s) pids (record { bounded = c.bounded; mapped = c.mapped })
        (AllServe-told s pids a) d in
    let none_left : t.user_count ≡ 0 = omega (arith, r.fewer) in
    let ending : t.terminate ≡ true = r.terminate in
    (record t { stop_server = true }, rw (some_users, run, ending, none_left) refl, refl, none_left)
