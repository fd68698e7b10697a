-- ===== src/Prelude/Runs.antt =====
-- Runs of a system whose steps are named: `step` gives none where a step cannot be made.
use mathlib.Core.Path.{◌≡◌, refl, subst}
use mathlib.Core.Option.{Option, none, some}
use mathlib.Core.List.{List, [], ◌∷◌}
use Prim.Native.Nat.{ℕ, zero, suc}
use native.Mathlib.Omega.{arith}

-- One of the threads at a statement goes on, where there is one.
abbrev pub one_of {ℓ} : {A : Type ℓ} → ℕ → (ℕ → A) → Option A
one_of zero f = none
one_of (suc n) f = some (f n)

abbrev pub and_then {ℓ m} : {A : Type ℓ} {B : Type m} → Option A → (A → Option B) → Option B
and_then none f = none
and_then (some a) f = f a

abbrev pub run {ℓ m} : {S : Type ℓ} {A : Type m} → (S → A → Option S) → S → List A → Option S
run step s [] = some s
run step s (x ∷ xs) = and_then (step s x) (λ t. run step t xs)

pub some-injective {ℓ} : {A : Type ℓ} {a b : A} → some a ≡ some b → a ≡ b
some-injective e = ground arith

module _ {ℓ m p} {S : Type ℓ} {A : Type m} (step : S → A → Option S) (P : S → Type p)
    (keeps : (s : S) (a : A) (t : S) → P s → step s a ≡ some t → P t) where
  run-keeps-from :
      (o : Option S) (xs : List A)
      → ((s : S) → o ≡ some s → P s)
      → (t : S) → and_then o (λ s. run step s xs) ≡ some t
      → P t
  run-keeps-from none xs f t e = absurd (ground arith)
  run-keeps-from (some s) [] f t e = subst P (some-injective e) (f s refl)
  run-keeps-from (some s) (x ∷ xs) f t e =
      run-keeps-from (step s x) xs (λ u q. keeps s x u (f s refl) q) t e

  -- What every step keeps, every run keeps.
  pub run-keeps : (s t : S) (xs : List A) → P s → run step s xs ≡ some t → P t
  run-keeps s t xs h e = run-keeps-from (some s) xs (λ u q. subst P (some-injective q) h) t e

-- A step after which a run is left.
pub run-cons {ℓ m} :
    {S : Type ℓ} {A : Type m} (step : S → A → Option S) (s t u : S) (x : A) (xs : List A)
    → step s x ≡ some t
    → run step t xs ≡ some u
    → run step s (x ∷ xs) ≡ some u
run-cons step s t u x xs e f = rw e f

pub one_of-some {ℓ} :
    {A : Type ℓ} (n : ℕ) (f : ℕ → A) (t : A)
    → one_of n f ≡ some t
    → (m : ℕ) × (n ≡ suc m) × (f m ≡ t)
one_of-some zero f t e = absurd (ground arith)
one_of-some (suc m) f t e = (m, refl, some-injective e)
