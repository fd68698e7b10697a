-- ===== src/Inactive/View/Sizes.antt =====
-- Timer/closeNonactiveConn.cpp: how many timers an event and a round leave.
use linux_websocket.Prelude.{
  ℕ, suc, ◌+◌, ◌≤◌, ◌≡◌, refl, inl, inr, true, none, some, Option, List, [], ◌∷◌, arith, ◌==◌, ◌&&◌,
  length, Bool-cases, Option-cases,
}
use linux_websocket.Timer.Chain.{Cell, Cells}
use linux_websocket.Timer.Insert.{added}
use linux_websocket.Inactive.{Fd, Signal, sigalrm, sigterm, other, Received, error, eof, got, Event}
use linux_websocket.Inactive.Accepting.{cell_for}
use linux_websocket.Inactive.View.{
  View, Setting, arrive, flags, welcome, hear, view_event, view_events, view_after,
}
use linux_websocket.Inactive.View.Owners.{
  length-extend, length-leave, length-remaining, length-added,
}

cells-flags : (v : View) (xs : List Signal) → (flags v xs).cells ≡ v.cells
unfolding flags
cells-flags v [] = refl
cells-flags v (sigalrm ∷ xs) = cells-flags (record v { timeout = true }) xs
cells-flags v (sigterm ∷ xs) = cells-flags (record v { stop_server = true }) xs
cells-flags v (other ∷ xs) = cells-flags v xs

length-arrive : (c : Cell) (xs : Cells) → length (arrive c xs) ≤ suc (length xs)
length-arrive c xs = elim (Option-cases (added c xs)) [
  | inl e ↦ rw (e, arrive) (omega arith)
  | inr (ys, e) ↦ rw (e, arrive) (omega (arith, length-added c xs ys e))
]

module _ (w : Setting) where
  length-welcome :
      (v : View) (timer cur : ℕ) (o : Option (Fd × ℕ))
      → length (welcome w v timer cur o).cells ≤ suc (length v.cells)
  unfolding welcome
  length-welcome v timer cur none = omega arith
  length-welcome v timer cur (some (fd, address)) = length-arrive (cell_for timer fd cur) v.cells

  length-hear :
      (v : View) (fd cur : ℕ) (r : Received) → length (hear w v fd cur r).cells ≤ length v.cells
  unfolding hear
  length-hear v fd cur (error is_eagain) = elim (Bool-cases is_eagain) [
    | inl again ↦ rw again (omega arith)
    | inr lost ↦ rw lost (length-leave fd v.cells)
  ]
  length-hear v fd cur eof = length-leave fd v.cells
  length-hear v fd cur got = omega (arith, length-extend fd (cur + 15) v.cells)

  pub length-view_event :
      (v : View) (ev : Event) → length (view_event w v ev).cells ≤ suc (length v.cells)
  unfolding view_event
  length-view_event v ev = elim (Bool-cases (ev.sockfd == w.listenfd)) [
    | inl arrives ↦ rw arrives (length-welcome v ev.new_timer ev.cur ev.accepted)
    | inr old ↦ rw old (elim (Bool-cases ((ev.sockfd == w.pipe_read) && ev.readable)) [
      | inl signal ↦ rw signal (rw (cells-flags v ev.signals) (omega arith))
      | inr client ↦ rw client (elim (Bool-cases ev.readable) [
        | inl here ↦ rw here (omega (arith, length-hear v ev.sockfd ev.cur ev.received))
        | inr nothing ↦ rw nothing (omega arith)
      ])
    ])
  ]

  pub length-view_events :
      (v : View) (evs : List Event)
      → length (view_events w v evs).cells ≤ length v.cells + length evs
  unfolding view_events
  length-view_events v [] = omega arith
  length-view_events v (ev ∷ evs) =
      omega (arith, length-view_event v ev, length-view_events (view_event w v ev) evs)

  pub length-view_after : (v : View) (cur : ℕ) → length (view_after w v cur).cells ≤ length v.cells
  unfolding view_after
  length-view_after v cur = elim (Bool-cases v.timeout) [
    | inl late ↦ rw late (length-remaining cur v.cells)
    | inr early ↦ rw early (omega arith)
  ]
