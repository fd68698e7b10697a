-- ===== src/Timer/Destroy.antt =====
-- Timer/linklistTimer.h: the destructor of sort_timer_lst.
use mathlib.Core.Path.{subst}
use linux_websocket.Prelude.{
  ℕ, zero, suc, ◌<◌, ◌≡◌, refl, sym, none, [], ◌∷◌, arith, length, if◌then◌else◌,
}
use linux_websocket.Timer.Heap.{
  Ptr, null, TimerList, Heap, write, Returns, returns, weaken, not_null, load-ok, delete-ok,
}
use linux_websocket.Timer.Chain.{Cells, first, has, IsDistinct, Linked, Linked-frame, IsList}
use linux_websocket.Timer.{destroy_loop, destroy}

-- `g` is `h` less the timers of `xs`.
abbrev pub Without : Cells → Heap → Heap → Type 0
Without xs h g = (a : Ptr) → g a ≡ (if has a xs then none else h a)

destroy_loop-Without :
    (h : Heap) (k : ℕ) (b : Ptr) (l : TimerList) (xs : Cells)
    → Linked h b xs null
    → IsDistinct xs
    → l.head ≡ first xs null
    → length xs < k
    → Returns (λ l' g. (l'.head ≡ null) × Without xs h g) (destroy_loop k (first xs null) l h)
unfolding destroy_loop write
destroy_loop-Without h zero b l xs s d e enough = absurd (omega arith)
destroy_loop-Without h (suc k) b l [] s d e enough = returns (e, λ a. refl)
destroy_loop-Without h (suc k) b l (x ∷ xs) s d e enough =
    rw (not_null s.0, load-ok s.0, delete-ok s.0)
      (weaken (λ l' g (done, gone). (done, λ a. ground (arith, gone a)))
        (destroy_loop-Without (write h x.addr none) k x.addr (record l { head = first xs null }) xs
          (Linked-frame x.addr null xs s.1 (λ a i. ground (arith, d.0))) d.1 refl (omega arith)))

-- The destructor of a well-formed list ends, deletes exactly its timers, each once, and leaves
-- every other object alone.
pub destroy-Without :
    {h : Heap} {l : TimerList} (fuel : ℕ) (xs : Cells)
    → IsList h l xs
    → length xs < fuel
    → Returns (λ l' g. (l'.head ≡ null) × Without xs h g) (destroy fuel l h)
unfolding destroy
destroy-Without {h} {l} fuel xs is enough =
    subst (λ p. Returns (λ l' g. (l'.head ≡ null) × Without xs h g) (destroy_loop fuel p l h))
      (sym is.head) (destroy_loop-Without h fuel null l xs is.chain is.distinct is.head enough)
