-- ===== src/Http/RequestLine.antt =====
-- IOfunction/httpparser9_3.cpp: the request lines that parse_requestline accepts.
use mathlib.Core.Path.{subst}
use mathlib.Core.Option.{some-injective}
use linux_websocket.Prelude.{
  ℕ, ◌≡◌, ◌∙◌, refl, ap, ◌⊎◌, ◌↔◌, inl, inr, true, false, Option, none, some, List, [], ◌∷◌, ◌++◌,
  arith, Bool-cases, Option-cases,
}
use linux_websocket.Http.{
  CheckState, header, no_request, Parsed, is_blank, split_blank, skip_blank, same_nocase, path_of,
  get, http_1_1, starts_with_slash, check_path, check_version, check_method, parse_requestline,
  refused,
}

abbrev pub NoBlank : List ℕ → Type 0
NoBlank [] = Unit {0}
NoBlank (c ∷ cs) = (is_blank c ≡ false) × NoBlank cs

abbrev pub AllBlank : List ℕ → Type 0
AllBlank [] = Unit {0}
AllBlank (c ∷ cs) = (is_blank c ≡ true) × AllBlank cs

abbrev pub StartsDark : List ℕ → Type 0
StartsDark [] = Unit {0}
StartsDark (c ∷ cs) = is_blank c ≡ false

split_blank-append :
    (a : List ℕ) (c : ℕ) (b : List ℕ)
    → NoBlank a
    → is_blank c ≡ true
    → split_blank (a ++ c ∷ b) ≡ some (a, b)
unfolding split_blank
split_blank-append [] c b n h = rw h
split_blank-append (x ∷ a) c b n h = rw (n.0, split_blank-append a c b n.1 h)

-- Where a text is split.
abbrev Split : List ℕ → List ℕ × List ℕ → Type 0
Split t r = (c : ℕ) × (t ≡ r.0 ++ c ∷ r.1) × NoBlank r.0 × (is_blank c ≡ true)

split_blank-Split : (t : List ℕ) (r : List ℕ × List ℕ) → split_blank t ≡ some r → Split t r
unfolding split_blank
split_blank-Split [] r e = absurd (ground arith)
split_blank-Split (x ∷ t) r e = elim (Bool-cases (is_blank x)) [
  | inl blank ↦ subst (Split (x ∷ t)) (some-injective _ _ (rw blank at e)) (x, refl, tt, blank)
  | inr dark ↦ elim (Option-cases (split_blank t)) [
    | inl none_left ↦ absurd (ground (arith, e, dark, none_left))
    | inr (q, found) ↦
        let (c, whole, words, blank) = split_blank-Split t q found in
        subst (Split (x ∷ t)) (some-injective _ _ (rw (dark, found) at e))
          (c, ap (◌∷◌ x) whole, (dark, words), blank)
  ]
]

skip_blank-append : (gap t : List ℕ) → AllBlank gap → StartsDark t → skip_blank (gap ++ t) ≡ t
unfolding skip_blank
skip_blank-append [] [] g d = refl
skip_blank-append [] (c ∷ t) g d = rw d
skip_blank-append (x ∷ gap) t g d = rw g.0 (skip_blank-append gap t g.1 d)

skip_blank-gap :
    (t : List ℕ)
    → (gap : List ℕ) × (t ≡ gap ++ skip_blank t) × AllBlank gap × StartsDark (skip_blank t)
unfolding skip_blank
skip_blank-gap [] = ([], refl, tt, tt)
skip_blank-gap (c ∷ t) = elim (Bool-cases (is_blank c)) [
  | inl blank ↦
      let (gap, e, a, d) = skip_blank-gap t in rw blank (c ∷ gap, ap (◌∷◌ c) e, (blank, a), d)
  | inr dark ↦ rw dark ([], refl, tt, dark)
]

-- A request line: a method, a target and a version between blanks. `path` is what counts of the
-- target.
pub record IsRequest (t : List ℕ) (path : List ℕ) : Type 0 where
  pub method : List ℕ
  pub blank₁ : ℕ
  pub gap₁ : List ℕ
  pub target : List ℕ
  pub blank₂ : ℕ
  pub gap₂ : List ℕ
  pub version : List ℕ
  pub spelled : t ≡ method ++ blank₁ ∷ (gap₁ ++ (target ++ blank₂ ∷ (gap₂ ++ version)))
  pub blanks : (is_blank blank₁ ≡ true) × AllBlank gap₁ × (is_blank blank₂ ≡ true) × AllBlank gap₂
  pub words : NoBlank method × NoBlank target × StartsDark version
  pub is_get : same_nocase method get ≡ true
  pub is_http_1_1 : same_nocase version http_1_1 ≡ true
  pub has_path : path_of target ≡ some path
  pub absolute : starts_with_slash path ≡ true

abbrev pub accepted : List ℕ → Parsed
accepted path = record { code = no_request; state = header; url = some path }

module _ (s : CheckState) (path : List ℕ) where
  check_path-accepts :
      (o : Option (List ℕ))
      → check_path s o ≡ accepted path
      → (o ≡ some path) × (starts_with_slash path ≡ true)
  unfolding check_path
  check_path-accepts none e = absurd (ground (arith, e))
  check_path-accepts (some u) e = ground (arith, e)

  check_version-accepts :
      (o : Option (List ℕ × List ℕ))
      → check_version s o ≡ accepted path
      → (url : List ℕ) × (version : List ℕ) × (o ≡ some (url, version))
        × (same_nocase (skip_blank version) http_1_1 ≡ true)
        × (path_of url ≡ some path)
        × (starts_with_slash path ≡ true)
  unfolding check_version
  check_version-accepts none e = absurd (ground (arith, e))
  check_version-accepts (some (url, version)) e =
      elim (Bool-cases (same_nocase (skip_blank version) http_1_1)) [
        | inl speaks ↦
            let (at_path, slash) = check_path-accepts (path_of url) (rw speaks at e) in
            (url, version, refl, speaks, at_path, slash)
        | inr refuses ↦ absurd (ground (arith, e, refuses))
      ]

  check_method-accepts :
      (o : Option (List ℕ × List ℕ))
      → check_method s o ≡ accepted path
      → (method : List ℕ) × (rest : List ℕ) × (o ≡ some (method, rest))
        × (same_nocase method get ≡ true)
        × (check_version s (split_blank (skip_blank rest)) ≡ accepted path)
  unfolding check_method
  check_method-accepts none e = absurd (ground (arith, e))
  check_method-accepts (some (method, rest)) e = elim (Bool-cases (same_nocase method get)) [
    | inl gets ↦ (method, rest, refl, gets, rw gets at e)
    | inr refuses ↦ absurd (ground (arith, e, refuses))
  ]

check_path-cases :
    (s : CheckState) (o : Option (List ℕ))
    → (check_path s o ≡ refused s) ⊎ ((path : List ℕ) × (check_path s o ≡ accepted path))
unfolding check_path
check_path-cases s none = inl refl
check_path-cases s (some u) = elim (Bool-cases (starts_with_slash u)) [
  | inl slash ↦ inr (u, rw slash)
  | inr other ↦ inl (rw other)
]

check_version-cases :
    (s : CheckState) (o : Option (List ℕ × List ℕ))
    → (check_version s o ≡ refused s) ⊎ ((path : List ℕ) × (check_version s o ≡ accepted path))
unfolding check_version
check_version-cases s none = inl refl
check_version-cases s (some (url, version)) =
    elim (Bool-cases (same_nocase (skip_blank version) http_1_1)) [
      | inl speaks ↦ rw speaks (check_path-cases s (path_of url))
      | inr other ↦ inl (rw other)
    ]

check_method-cases :
    (s : CheckState) (o : Option (List ℕ × List ℕ))
    → (check_method s o ≡ refused s) ⊎ ((path : List ℕ) × (check_method s o ≡ accepted path))
unfolding check_method
check_method-cases s none = inl refl
check_method-cases s (some (method, rest)) = elim (Bool-cases (same_nocase method get)) [
  | inl gets ↦ rw gets (check_version-cases s (split_blank (skip_blank rest)))
  | inr other ↦ inl (rw other)
]

parse_requestline-cases :
    (t : List ℕ) (s : CheckState)
    → (parse_requestline t s ≡ refused s)
      ⊎ ((path : List ℕ) × (parse_requestline t s ≡ accepted path))
unfolding parse_requestline
parse_requestline-cases t s = check_method-cases s (split_blank t)

-- What is accepted is a request line.
parse_requestline-IsRequest :
    (t : List ℕ) (s : CheckState) (path : List ℕ)
    → parse_requestline t s ≡ accepted path
    → IsRequest t path
unfolding parse_requestline
parse_requestline-IsRequest t s path e =
    let (method, rest, split₁, gets, e₁) = check_method-accepts s path (split_blank t) e in
    let (target, tail, split₂, speaks, at_path, slash) =
      check_version-accepts s path (split_blank (skip_blank rest)) e₁ in
    let (blank₁, whole₁, word₁, b₁) = split_blank-Split t (method, rest) split₁ in
    let (gap₁, whole₂, g₁, dark₁) = skip_blank-gap rest in
    let (blank₂, whole₃, word₂, b₂) = split_blank-Split (skip_blank rest) (target, tail) split₂ in
    let (gap₂, whole₄, g₂, dark₂) = skip_blank-gap tail in
    record {
      method = method;
      blank₁ = blank₁;
      gap₁ = gap₁;
      target = target;
      blank₂ = blank₂;
      gap₂ = gap₂;
      version = skip_blank tail;
      spelled =
          whole₁
          ∙ ap (λ r. method ++ blank₁ ∷ r)
              (whole₂ ∙ ap (λ r. gap₁ ++ r) (whole₃ ∙ ap (λ r. target ++ blank₂ ∷ r) whole₄));
      blanks = (b₁, g₁, b₂, g₂);
      words = (word₁, word₂, dark₂);
      is_get = gets;
      is_http_1_1 = speaks;
      has_path = at_path;
      absolute = slash;
    }

-- A url that counts is not empty, so it starts with no blank.
target-StartsDark :
    (target path rest : List ℕ)
    → NoBlank target
    → path_of target ≡ some path
    → starts_with_slash path ≡ true
    → StartsDark (target ++ rest)
unfolding path_of
target-StartsDark [] path rest n e slash = absurd (ground (arith, e, slash))
target-StartsDark (c ∷ cs) path rest n e slash = n.0

-- A request line is accepted.
IsRequest-parse_requestline :
    (t : List ℕ) (s : CheckState) (path : List ℕ)
    → IsRequest t path
    → parse_requestline t s ≡ accepted path
unfolding parse_requestline check_method check_version check_path
IsRequest-parse_requestline t s path r =
    let behind = r.target ++ r.blank₂ ∷ (r.gap₂ ++ r.version) in
    let dark =
      target-StartsDark r.target path (r.blank₂ ∷ (r.gap₂ ++ r.version)) r.words.1 r.has_path
        r.absolute in
    rw (
      r.spelled,
      split_blank-append r.method r.blank₁ (r.gap₁ ++ behind) r.words.0 r.blanks.0,
      r.is_get,
      skip_blank-append r.gap₁ behind r.blanks.1 dark,
      split_blank-append r.target r.blank₂ (r.gap₂ ++ r.version) r.words.1 r.blanks.2,
      skip_blank-append r.gap₂ r.version r.blanks.3 r.words.2,
      r.is_http_1_1,
      r.has_path,
      r.absolute,
    )

-- parse_requestline accepts a text, with the path that it prints, exactly if the text is a GET
-- request line of HTTP/1.1 with an absolute path, letter case aside; the check state is then that
-- of the headers.
pub parse_requestline-accepts :
    (t : List ℕ) (s : CheckState) (path : List ℕ)
    → (parse_requestline t s ≡ accepted path) ↔ IsRequest t path
parse_requestline-accepts t s path =
    (parse_requestline-IsRequest t s path, IsRequest-parse_requestline t s path)

-- A text that is not a GET request line of HTTP/1.1 with an absolute path is a bad request, and
-- leaves the check state alone.
pub parse_requestline-refuses :
    (t : List ℕ) (s : CheckState)
    → ((path : List ℕ) → ¬ IsRequest t path)
    → parse_requestline t s ≡ refused s
parse_requestline-refuses t s none_fits = elim (parse_requestline-cases t s) [
  | inl e ↦ e
  | inr (path, e) ↦ absurd (none_fits path (parse_requestline-IsRequest t s path e))
]
