-- ===== src/Timer/Unlink.antt =====
-- Timer/linklistTimer.h: the two writes by which adjust_timer and del_timer take a timer out of
-- the middle of a list.
use linux_websocket.Prelude.{◌≡◌, false, some, ◌∷◌, ◌++◌, arith}
use linux_websocket.Timer.Heap.{null, Cmd, Heap, write, Holds, set_next, set_prev, load, ◌>>◌}
use linux_websocket.Timer.Chain.{
  Cell, Cells, timer_of, first, last, has, IsDistinct, Linked, SameOutside, Linked-frame,
  Linked-split, Linked-append, IsDistinct-right, IsDistinct-disjoint, has-append,
}

-- `z` and `y` become neighbours.
abbrev pub joined : Heap → (xs : Cells) (z y : Cell) (ys : Cells) → Heap
joined h xs z y ys =
    write (write h z.addr (some (timer_of z (last null xs) y.addr))) y.addr
      (some (timer_of y z.addr (first ys null)))

module _ (h : Heap) (xs : Cells) (z c y : Cell) (ys : Cells)
    (s : Linked h null (xs ++ z ∷ c ∷ y ∷ ys) null) (d : IsDistinct (xs ++ z ∷ c ∷ y ∷ ys)) where
  pub middle : Linked h (last null xs) (z ∷ c ∷ y ∷ ys) null
  middle = (Linked-split h null null xs (z ∷ c ∷ y ∷ ys) s).1

  pub middle-IsDistinct : IsDistinct (z ∷ c ∷ y ∷ ys)
  middle-IsDistinct = IsDistinct-right xs (z ∷ c ∷ y ∷ ys) d

  pub joined-run :
      {A : Type 0} (k : Cmd A)
      → (set_next z.addr y.addr >> (set_prev y.addr z.addr >> k)) h ≡ k (joined h xs z y ys)
  unfolding set_next set_prev load write
  joined-run k =
      let (hz, (hc, (hy, _))) = middle in
      let (dz, (dc, _)) = middle-IsDistinct in
      ground (arith, hz.valid, hz.stored, hy.valid, hy.stored, dz)

  pub joined-Holds : Holds (joined h xs z y ys) c.addr (timer_of c z.addr y.addr)
  unfolding write
  joined-Holds =
      let (hz, (hc, _)) = middle in
      let (dz, (dc, _)) = middle-IsDistinct in
      record { valid = hc.valid; stored = ground (arith, hc.stored, dz, dc) }

  pub joined-Linked : Linked (joined h xs z y ys) null (xs ++ z ∷ y ∷ ys) null
  unfolding write
  joined-Linked =
      let (hz, (hc, (hy, rest))) = middle in
      let (dz, (dc, (dy, _))) = middle-IsDistinct in
      Linked-append _ null null xs (z ∷ y ∷ ys)
        (Linked-frame null z.addr xs (Linked-split h null null xs (z ∷ c ∷ y ∷ ys) s).0
          (λ a i. ground (arith, IsDistinct-disjoint a xs (z ∷ c ∷ y ∷ ys) d i)))
        (
          record { valid = hz.valid; stored = ground (arith, dz) },
          (
            record { valid = hy.valid; stored = ground arith },
            Linked-frame y.addr null ys rest (λ a i. ground (arith, dz, dy)),
          ),
        )

  pub joined-same : SameOutside (xs ++ z ∷ c ∷ y ∷ ys) h (joined h xs z y ys)
  unfolding write
  joined-same a o = ground (arith, has-append a xs (z ∷ c ∷ y ∷ ys))

  -- The timer that was taken out is no longer among the cells.
  pub joined_out : has c.addr (xs ++ z ∷ y ∷ ys) ≡ false
  joined_out =
      let (dz, (dc, _)) = middle-IsDistinct in
      ground (
        arith,
        has-append c.addr xs (z ∷ y ∷ ys),
        IsDistinct-disjoint c.addr xs (z ∷ c ∷ y ∷ ys) d,
        dz,
        dc,
      )
