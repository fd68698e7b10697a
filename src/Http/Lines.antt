-- ===== src/Http/Lines.antt =====
-- IOfunction/httpparser9_3.cpp: parse_line.
use mathlib.Core.Path.{subst}
use linux_websocket.Prelude.{
  ℕ, zero, suc, ◌+◌, ◌-◌, ◌≤◌, ◌<◌, ◌≡◌, ◌∙◌, refl, sym, ap, ◌≢◌, inl, inr, false, arith, ◌==◌,
  Bool-cases,
}
use linux_websocket.Http.{
  line_ok, line_open, Buffer, put, Line, line, cr, lf, at_cr, at_lf, parse_from, parse_line,
}

-- No end of line from `i` up to `j`.
abbrev pub IsPlain : Buffer → (i j : ℕ) → Type 0
IsPlain b i j = (k : ℕ) → i ≤ k → k < j → (b k ≢ cr) × (b k ≢ lf)

-- Bytes that are no ends of line are passed over.
parse_from-plain :
    (b : Buffer) (i m n : ℕ) → IsPlain b i (i + m) → parse_from b i (m + n) ≡ parse_from b (i + m) n
unfolding parse_from
parse_from-plain b i zero n p =
    let e : zero + n ≡ n = omega arith in let f : i + zero ≡ i = omega arith in rw (e, f)
parse_from-plain b i (suc m) n p =
    let e : suc m + n ≡ suc (m + n) = omega arith in
    let f : i + suc m ≡ suc i + m = omega arith in
    let here = p i (omega arith) (omega arith) in
    let no_cr : (b i == cr) ≡ false = ground (arith, here.0) in
    let no_lf : (b i == lf) ≡ false = ground (arith, here.1) in
    rw (e, f, no_cr, no_lf)
      (parse_from-plain b (suc i) m n (λ k l h. p k (omega arith) (omega arith)))

parse_from-crlf :
    (b : Buffer) (k q : ℕ)
    → b k ≡ cr
    → b (k + 1) ≡ lf
    → parse_from b k (suc (suc q)) ≡ line line_ok (put (put b k 0) (k + 1) 0) (k + 2)
unfolding parse_from at_cr
parse_from-crlf b k q at_k behind =
    let more : (suc q == 0) ≡ false = ground arith in rw (at_k, behind, more)

-- A line of plain bytes that ends in "\r\n" inside the data is found, with its two last bytes
-- overwritten by NUL, and checked_index goes behind it.
pub parse_line_ok :
    (b : Buffer) (i k r : ℕ)
    → i ≤ k
    → k + 2 ≤ r
    → IsPlain b i k
    → b k ≡ cr
    → b (k + 1) ≡ lf
    → parse_line b i r ≡ line line_ok (put (put b k 0) (k + 1) 0) (k + 2)
unfolding parse_line
parse_line_ok b i k r low high plain at_k behind =
    let e : r - i ≡ (k - i) + suc (suc (r - k - 2)) = omega arith in
    let f : i + (k - i) ≡ k = omega arith in
    rw e (
      parse_from-plain b i (k - i) (suc (suc (r - k - 2))) (λ j l h. plain j l (omega arith))
      ∙ ap (λ j. parse_from b j (suc (suc (r - k - 2)))) f
      ∙ parse_from-crlf b k (r - k - 2) at_k behind)

-- What an unfinished line leaves, with `n` bytes read from `i` on, and what `q` more bytes give.
record Resumes (b : Buffer) (i n : ℕ) (l : Line) : Type 0 where
  kept : l.buffer ≡ b
  from : i ≤ l.checked_index
  upto : l.checked_index ≤ i + n
  resumed :
      (q : ℕ) → parse_from b l.checked_index (i + n + q - l.checked_index) ≡ parse_from b i (n + q)

stays : (b : Buffer) (i n : ℕ) → Resumes b i n (line line_open b i)
stays b i n = record {
  kept = refl;
  from = omega arith;
  upto = omega arith;
  resumed = λ q. ap (parse_from b i) (omega arith);
}

at_cr-open :
    (b : Buffer) (i n : ℕ) → (at_cr b i n).status ≡ line_open → at_cr b i n ≡ line line_open b i
unfolding at_cr
at_cr-open b i n e = ground arith

at_lf-closed : (b : Buffer) (i : ℕ) → (at_lf b i).status ≢ line_open
unfolding at_lf
at_lf-closed b i e = ground arith

parse_from-next :
    (b : Buffer) (i n : ℕ)
    → (b i == cr) ≡ false
    → (b i == lf) ≡ false
    → parse_from b i (suc n) ≡ parse_from b (suc i) n
unfolding parse_from
parse_from-next b i n no_cr no_lf = rw (no_cr, no_lf)

parse_from-Resumes :
    (b : Buffer) (i n : ℕ)
    → (parse_from b i n).status ≡ line_open
    → Resumes b i n (parse_from b i n)
unfolding parse_from
parse_from-Resumes b i zero opened = stays b i zero
parse_from-Resumes b i (suc n) opened = elim (Bool-cases (b i == cr)) [
  | inl is_cr ↦ rw is_cr (
      subst (Resumes b i (suc n)) (sym (at_cr-open b i n (rw is_cr at opened))) (stays b i (suc n)))
  | inr no_cr ↦ elim (Bool-cases (b i == lf)) [
    | inl is_lf ↦ absurd (at_lf-closed b i (rw (no_cr, is_lf) at opened))
    | inr no_lf ↦
        let r = parse_from-Resumes b (suc i) n (rw (no_cr, no_lf) at opened) in
        rw (no_cr, no_lf)
          (record {
            kept = r.kept;
            from = omega (arith, r.from);
            upto = omega (arith, r.upto);
            resumed = λ q.
                ap
                  (λ j.
                    parse_from b (parse_from b (suc i) n).checked_index
                      (j - (parse_from b (suc i) n).checked_index))
                  (omega arith)
                ∙ r.resumed q
                ∙ sym (parse_from-next b i (n + q) no_cr no_lf)
                ∙ ap (parse_from b i) {x = suc (n + q)} {y = suc n + q} (omega arith);
          })
  ]
]

-- Data may come in pieces: if parse_line asks for more after the bytes up to `m`, it has changed
-- nothing, and to go on from its checked_index with the bytes up to `r` gives what one call on all
-- of them gives.
pub parse_line_resumes :
    (b : Buffer) (i m r : ℕ)
    → i ≤ m
    → m ≤ r
    → (parse_line b i m).status ≡ line_open
    → ((parse_line b i m).buffer ≡ b)
      × (i ≤ (parse_line b i m).checked_index)
      × ((parse_line b i m).checked_index ≤ m)
      × (parse_line b (parse_line b i m).checked_index r ≡ parse_line b i r)
unfolding parse_line
parse_line_resumes b i m r low high opened =
    let l = parse_from-Resumes b i (m - i) opened in
    let c = (parse_from b i (m - i)).checked_index in
    let e : r - c ≡ i + (m - i) + (r - m) - c = omega arith in
    let f : m - i + (r - m) ≡ r - i = omega arith in
    (
      l.kept,
      l.from,
      omega (arith, l.upto),
      ap (parse_from b c) e ∙ l.resumed (r - m) ∙ ap (parse_from b i) f,
    )
