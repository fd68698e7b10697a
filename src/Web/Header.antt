-- ===== src/Web/Header.antt =====
-- IOfunction/webServer6_2.cpp: the decimal size, and the header as a text in its buffer.
use mathlib.Core.Path.{ap₂}
use linux_websocket.Prelude.{
  ℕ, zero, suc, ◌+◌, ◌-◌, ◌*◌, ◌%◌, ◌/◌, ◌^◌, ◌≤◌, ◌<◌, ◌≡◌, ◌≢◌, ◌∙◌, refl, ap, some, List, [],
  ◌∷◌, ◌++◌, ltb, length, length-append, take, arith, inl, inr, true, Bool-cases,
}
use linux_websocket.Web.{Buffer, decimal, print_long, store, snprintf, strlen, bytes_at}

-- The number that a text of digits denotes, read from the left.
abbrev pub value_from : ℕ → List ℕ → ℕ
value_from n [] = n
value_from n (c ∷ cs) = value_from (n * 10 + (c - b'0')) cs

value_from-append :
    (n : ℕ) (cs ds : List ℕ) → value_from n (cs ++ ds) ≡ value_from (value_from n cs) ds
value_from-append n [] ds = refl
value_from-append n (c ∷ cs) ds = value_from-append (n * 10 + (c - b'0')) cs ds

abbrev pub NoNul : List ℕ → Type 0
NoNul [] = Unit
NoNul (c ∷ cs) = (c ≢ 0) × NoNul cs

pub NoNul-append : (cs ds : List ℕ) → NoNul cs → NoNul ds → NoNul (cs ++ ds)
NoNul-append [] ds h k = k
NoNul-append (c ∷ cs) ds h k = (h.0, NoNul-append cs ds h.1 k)

-- A digit is one of '0' to '9'.
abbrev pub IsDigits : List ℕ → Type 0
IsDigits [] = Unit
IsDigits (c ∷ cs) = (b'0' ≤ c) × (c < b'0' + 10) × IsDigits cs

-- A decimal number as it is written: one digit, or more of which the first is not 0.
abbrev pub IsNumeral : List ℕ → Type 0
IsNumeral [] = ⊥
IsNumeral (c ∷ []) = IsDigits (c ∷ [])
IsNumeral (c ∷ d ∷ cs) = (c ≢ b'0') × IsDigits (c ∷ d ∷ cs)

IsDigits-append : (cs ds : List ℕ) → IsDigits cs → IsDigits ds → IsDigits (cs ++ ds)
IsDigits-append [] ds h k = k
IsDigits-append (c ∷ cs) ds h k = (h.0, h.1, IsDigits-append cs ds h.2 k)

-- A digit behind a number that is not 0.
IsNumeral-append :
    (cs : List ℕ) (d : ℕ)
    → IsNumeral cs
    → 0 < value_from 0 cs
    → IsDigits (d ∷ [])
    → IsNumeral (cs ++ d ∷ [])
IsNumeral-append [] d h p k = absurd h
IsNumeral-append (c ∷ []) d h p k = (omega arith, IsDigits-append (c ∷ []) (d ∷ []) h k)
IsNumeral-append (c ∷ e ∷ cs) d h p k = (h.0, IsDigits-append (c ∷ e ∷ cs) (d ∷ []) h.1 k)

-- The numbers below it have `k` digits at most.
abbrev pub ten_to : ℕ → ℕ
ten_to zero = 1
ten_to (suc k) = 10 * ten_to k

-- The text is the number, in `k` digits at most.
pub record Prints (k n : ℕ) (cs : List ℕ) : Type 0 where
  pub digits : value_from 0 cs ≡ n
  pub short : length cs ≤ k
  pub no_nul : NoNul cs
  pub numeral : IsNumeral cs

one_digit-Prints : (k n : ℕ) → n < 10 → Prints (suc k) n ((b'0' + n) ∷ [])
one_digit-Prints k n h = record {
  digits = omega arith;
  short = omega arith;
  no_nul = (omega arith, tt);
  numeral = (omega arith, omega arith, tt);
}

decimal-Prints : (k n : ℕ) → n < ten_to (suc k) → Prints (suc k) n (decimal (suc k) n)
unfolding decimal
decimal-Prints zero n h =
    let one : ltb n 10 ≡ true = ground arith in rw one (one_digit-Prints 0 n (omega arith))
decimal-Prints (suc k) n h =
    let p = decimal-Prints k (n / 10) (omega arith) in
    let front = decimal (suc k) (n / 10) in
    elim (Bool-cases (ltb n 10)) [
      | inl one ↦ rw one (one_digit-Prints (suc k) n (ground arith))
      | inr more ↦ rw more (record {
        digits =
            value_from-append 0 front ((b'0' + n % 10) ∷ [])
            ∙ ap (λ v. v * 10 + (b'0' + n % 10 - b'0')) p.digits
            ∙ (omega arith);
        short = omega (arith, length-append front ((b'0' + n % 10) ∷ []), p.short);
        no_nul = NoNul-append front _ p.no_nul (omega arith, tt);
        numeral =
            IsNumeral-append front (b'0' + n % 10) p.numeral
              (let ten : 10 ≤ n = ground arith in omega (arith, p.digits))
              (omega arith, omega arith, tt);
      })
    ]

pub print_long-Prints : (n : ℕ) → n < 2 ^ 63 → Prints 19 n (print_long n)
print_long-Prints n h = decimal-Prints 18 n (omega arith)

-- The text stands in the buffer from `i` on.
abbrev pub Stands : Buffer → ℕ → List ℕ → Type 0
Stands b i [] = Unit
Stands b i (c ∷ cs) = (b i ≡ c) × Stands b (suc i) cs

pub Stands-append :
    (b : Buffer) (i j : ℕ) (cs ds : List ℕ)
    → i + length cs ≡ j
    → Stands b i cs
    → Stands b j ds
    → Stands b i (cs ++ ds)
Stands-append b i j [] ds e h k = let e' : i ≡ j = omega arith in rw e' k
Stands-append b i j (c ∷ cs) ds e h k = (h.0, Stands-append b (suc i) j cs ds (omega arith) h.1 k)

store-before : (b : Buffer) (at : ℕ) (cs : List ℕ) (j : ℕ) → j < at → store b at cs j ≡ b j
unfolding store
store-before b at [] j h = ground arith
store-before b at (c ∷ cs) j h = ground (arith, store-before b (suc at) cs j (omega arith))

store-end : (b : Buffer) (at : ℕ) (cs : List ℕ) → store b at cs (at + length cs) ≡ 0
unfolding store
store-end b at [] = ground arith
store-end b at (c ∷ cs) = ground (arith, store-end b (suc at) cs)

Stands-congr :
    (b d : Buffer) (i : ℕ) (cs : List ℕ)
    → ((j : ℕ) → i ≤ j → j < i + length cs → d j ≡ b j)
    → Stands b i cs
    → Stands d i cs
Stands-congr b d i [] f h = tt
Stands-congr b d i (c ∷ cs) f h = (
  f i (omega arith) (omega arith) ∙ h.0,
  Stands-congr b d (suc i) cs (λ j l m. f j (omega arith) (omega arith)) h.1,
)

store-Stands : (b : Buffer) (at : ℕ) (cs : List ℕ) → Stands (store b at cs) at cs
unfolding store
store-Stands b at [] = tt
store-Stands b at (c ∷ cs) = (
  ground arith,
  Stands-congr (store b (suc at) cs) _ (suc at) cs (λ j l m. ground arith)
      (store-Stands b (suc at) cs),
)

take-all : (n : ℕ) (cs : List ℕ) → length cs ≤ n → take n cs ≡ cs
take-all zero [] h = refl
take-all zero (c ∷ cs) h = absurd (omega arith)
take-all (suc n) [] h = refl
take-all (suc n) (c ∷ cs) h = ap (◌∷◌ c) (take-all n cs (omega arith))

snprintf-whole :
    (b : Buffer) (at n : ℕ) (cs : List ℕ) → length cs < n → snprintf b at n cs ≡ store b at cs
snprintf-whole b at zero cs h = absurd (omega arith)
snprintf-whole b at (suc n) cs h = ap (store b at) (take-all n cs (omega arith))

-- The C string in the buffer.
pub record IsText (b : Buffer) (cs : List ℕ) : Type 0 where
  pub stands : Stands b 0 cs
  pub ends : b (length cs) ≡ 0

store-IsText :
    (b : Buffer) (at : ℕ) (cs ds : List ℕ)
    → at ≡ length cs
    → Stands b 0 cs
    → IsText (store b at ds) (cs ++ ds)
store-IsText b at cs ds e h = record {
  stands =
      Stands-append (store b at ds) 0 at cs ds (omega arith)
        (Stands-congr b (store b at ds) 0 cs (λ j l m. store-before b at ds j (omega arith)) h)
        (store-Stands b at ds);
  ends = ap (store b at ds) (omega (arith, length-append cs ds)) ∙ store-end b at ds;
}

pub snprintf-IsText :
    (b : Buffer) (at n : ℕ) (cs ds : List ℕ)
    → at ≡ length cs
    → length ds < n
    → Stands b 0 cs
    → IsText (snprintf b at n ds) (cs ++ ds)
snprintf-IsText b at n cs ds e f h = rw (snprintf-whole b at n ds f) (store-IsText b at cs ds e h)

strlen-Stands :
    (b : Buffer) (i n : ℕ) (cs : List ℕ)
    → Stands b i cs
    → NoNul cs
    → b (i + length cs) ≡ 0
    → length cs < n
    → strlen b i n ≡ some (i + length cs)
unfolding strlen
strlen-Stands b i zero cs h k e l = absurd (omega arith)
strlen-Stands b i (suc n) [] h k e l = ground arith
strlen-Stands b i (suc n) (c ∷ cs) h k e l =
    ground (arith, strlen-Stands b (suc i) n cs h.1 k.1 (ap b (omega arith) ∙ e) (omega arith))

bytes_at-Stands : (b : Buffer) (i : ℕ) (cs : List ℕ) → Stands b i cs → bytes_at b i (length cs) ≡ cs
unfolding bytes_at
bytes_at-Stands b i [] h = refl
bytes_at-Stands b i (c ∷ cs) h = ap₂ ◌∷◌ h.0 (bytes_at-Stands b (suc i) cs h.1)

pub IsText-strlen :
    (b : Buffer) (n : ℕ) (cs : List ℕ)
    → IsText b cs
    → NoNul cs
    → length cs < n
    → strlen b 0 n ≡ some (length cs)
IsText-strlen b n cs t k l =
    strlen-Stands b 0 n cs t.stands k (ap b (omega arith) ∙ t.ends) l ∙ ap some (omega arith)

pub IsText-bytes : (b : Buffer) (cs : List ℕ) → IsText b cs → bytes_at b 0 (length cs) ≡ cs
IsText-bytes b cs t = bytes_at-Stands b 0 cs t.stands
