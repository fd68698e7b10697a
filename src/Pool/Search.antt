-- ===== src/Pool/Search.antt =====
-- ThreadPool/processPool.h: the round robin of run_parent.
use mathlib.Core.Path.{subst}
use native.Mathlib.Decide.{dec_lt}
use native.Mathlib.Nat.{mod-add-mod}
use linux_websocket.Prelude.{
  ℕ, zero, suc, ◌+◌, ◌%◌, ◌<◌, ◌≡◌, ◌∙◌, refl, ap, ◌≢◌, inl, inr, true, false, some, List, arith,
  ◌==◌, Bool-cases,
}
use linux_websocket.Pool.{Process, is_dead, search}

-- The process that is `d` places behind `counter`.
abbrev pub place : (n counter d : ℕ) → ℕ
place n counter d = (counter + d) % n

-- Where the search ends: at the first living process from `counter` on, `d` places behind it, or
-- at `counter` where none of the `n` processes lives.
pub data Found (ps : List Process) (n counter j : ℕ) : Type 0 where
  living :
      (d : ℕ)
      → d < n
      → j ≡ place n counter d
      → is_dead ps j ≡ false
      → ((e : ℕ) → e < d → is_dead ps (place n counter e) ≡ true)
      → Found ps n counter j
  nobody :
      j ≡ counter → ((e : ℕ) → e < n → is_dead ps (place n counter e) ≡ true) → Found ps n counter j

next-place : (n counter d : ℕ) → 0 < n → (place n counter d + 1) % n ≡ place n counter (suc d)
next-place n counter d pos = mod-add-mod (counter + d) n 1 ∙ ap (λ (t : ℕ). t % n) (omega arith)

pub place-zero : (n counter : ℕ) → counter < n → place n counter 0 ≡ counter
place-zero n counter c = grind arith

place-full : (n counter : ℕ) → counter < n → place n counter n ≡ counter
place-full n counter c = grind arith

place-ne : (n counter d : ℕ) → counter < n → 0 < d → d < n → place n counter d ≢ counter
place-ne n counter d c pos less = grind arith

dead_upto :
    (ps : List Process) (n counter d : ℕ)
    → ((e : ℕ) → e < d → is_dead ps (place n counter e) ≡ true)
    → is_dead ps (place n counter d) ≡ true
    → (e : ℕ) → e < suc d
    → is_dead ps (place n counter e) ≡ true
dead_upto ps n counter d dead ended e h = elim (dec_lt e d) [
  | yes less ↦ dead e less
  | no more ↦ let same : e ≡ d = omega arith in rw same ended
]

-- The loop has passed `d` dead processes, and has fuel for the others.
search-from :
    (ps : List Process) (n counter fuel d : ℕ)
    → counter < n
    → d + fuel ≡ n
    → 0 < fuel
    → ((e : ℕ) → e < d → is_dead ps (place n counter e) ≡ true)
    → (j : ℕ) × (search ps n counter fuel (place n counter d) ≡ some j) × Found ps n counter j
unfolding search
search-from ps n counter zero d c whole pos dead = absurd (omega arith)
search-from ps n counter (suc zero) d c whole pos dead =
    let e : suc d ≡ n = omega arith in
    let back : (place n counter d + 1) % n ≡ counter =
      next-place n counter d (omega arith) ∙ ap (place n counter) e ∙ place-full n counter c in
    let home : ((place n counter d + 1) % n == counter) ≡ true = ground (arith, back) in
    elim (Bool-cases (is_dead ps (place n counter d))) [
      | inl ended ↦ (
        (place n counter d + 1) % n,
        rw (ended, home),
        nobody back (λ k h. dead_upto ps n counter d dead ended k (omega arith)),
      )
      | inr lives ↦ (place n counter d, rw lives, living d (omega arith) refl lives dead)
    ]
search-from ps n counter (suc (suc fuel)) d c whole pos dead =
    let next = next-place n counter d (omega arith) in
    let away = place-ne n counter (suc d) c (omega arith) (omega arith) in
    let on : (place n counter (suc d) == counter) ≡ false = ground (arith, away) in
    elim (Bool-cases (is_dead ps (place n counter d))) [
      | inl ended ↦
          rw (ended, next, on)
            (search-from ps n counter (suc fuel) (suc d) c (omega arith) (omega arith)
              (λ k h. dead_upto ps n counter d dead ended k (omega arith)))
      | inr lives ↦ (place n counter d, rw lives, living d (omega arith) refl lives dead)
    ]

-- With fuel for each of the `n` processes, from a counter in range, the search ends, at the process
-- that `Found` says.
pub search-Found :
    (ps : List Process) (n counter : ℕ)
    → counter < n
    → (j : ℕ) × (search ps n counter n counter ≡ some j) × Found ps n counter j
search-Found ps n counter c =
    subst (λ p. (j : ℕ) × (search ps n counter n p ≡ some j) × Found ps n counter j)
      (place-zero n counter c)
      (search-from ps n counter n 0 c (omega arith) (omega arith) (λ e h. absurd (omega arith)))
