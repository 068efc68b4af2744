-- ===== src/Text/Lines.antt =====
-- std::getline over a text: the pieces between delimiters, and the text's last piece if it is not
-- empty.
use dist_cache.Prelude.{
  ℕ, ◌≡◌, refl, false, List, [], ◌∷◌, ◌++◌, arith, ◌==◌, Bool-cases, List-cases, inl, inr,
  if◌then◌else◌, All,
}
use dist_cache.Text.{Text}

abbrev pub onto_first : ℕ → List Text → List Text
onto_first c [] = (c ∷ []) ∷ []
onto_first c (l ∷ ls) = (c ∷ l) ∷ ls

-- What the calls of `getline(in, line, delimiter)` read until one fails.
unfoldable pub getlines : ℕ → Text → List Text
getlines delimiter [] = []
getlines delimiter (c ∷ cs) =
    let rest = getlines delimiter cs in if c == delimiter then [] ∷ rest else onto_first c rest

-- A text without the byte.
abbrev pub Lacks : ℕ → Text → Type 0
Lacks d = All (λ c. (c == d) ≡ false)

-- A text that is empty or ends with the byte.
abbrev pub Complete : ℕ → Text → Type 0
Complete d [] = Unit {0}
Complete d (c ∷ []) = c ≡ d
Complete d (c ∷ b ∷ cs) = Complete d (b ∷ cs)

pub getlines_line :
    (d : ℕ) (l rest : Text) → Lacks d l → getlines d (l ++ d ∷ rest) ≡ l ∷ getlines d rest
unfolding getlines
getlines_line d [] rest h = ground arith
getlines_line d (c ∷ l) rest h = ground (arith, h.0, getlines_line d l rest h.1)

pub getlines_last : (d c : ℕ) (l : Text) → Lacks d (c ∷ l) → getlines d (c ∷ l) ≡ (c ∷ l) ∷ []
unfolding getlines
getlines_last d c [] h = ground (arith, h.0)
getlines_last d c (b ∷ l) h = ground (arith, h.0, getlines_last d b l h.1)

getlines-cons : (d c : ℕ) (t : Text) → (l : Text) × (ls : List Text) × (getlines d (c ∷ t) ≡ l ∷ ls)
unfolding getlines
getlines-cons d c t = elim (Bool-cases (c == d)) [
  | inl e ↦ ([], getlines d t, rw e refl)
  | inr e ↦ elim (List-cases (getlines d t)) [
    | inl none_left ↦ (c ∷ [], [], rw (e, none_left) refl)
    | inr (l, ls, more) ↦ (c ∷ l, ls, rw (e, more) refl)
  ]
]

-- One more byte in front of lines that go on.
getlines_grow :
    (d c : ℕ) (t s l : Text) (ls : List Text)
    → getlines d t ≡ l ∷ ls
    → getlines d (t ++ s) ≡ getlines d t ++ getlines d s
    → getlines d (c ∷ (t ++ s)) ≡ getlines d (c ∷ t) ++ getlines d s
unfolding getlines
getlines_grow d c t s l ls e ih = ground (arith, e, ih)

-- After complete lines the reading starts afresh.
pub getlines-append :
    (d : ℕ) (t s : Text) → Complete d t → getlines d (t ++ s) ≡ getlines d t ++ getlines d s
getlines-append d [] s h = unfold getlines in refl
getlines-append d (c ∷ []) s h = unfold getlines in ground (arith, h)
getlines-append d (c ∷ b ∷ cs) s h =
    let (l, ls, e) = getlines-cons d b cs in
    getlines_grow d c (b ∷ cs) s l ls e (getlines-append d (b ∷ cs) s h)

pub Complete-line : (d : ℕ) (t : Text) → Complete d (t ++ d ∷ [])
Complete-line d [] = refl
Complete-line d (c ∷ []) = refl
Complete-line d (c ∷ b ∷ cs) = Complete-line d (b ∷ cs)

pub Complete-append : (d : ℕ) (t s : Text) → Complete d t → Complete d s → Complete d (t ++ s)
Complete-append d [] s h k = k
Complete-append d (c ∷ []) [] h k = h
Complete-append d (c ∷ []) (b ∷ s) h k = k
Complete-append d (c ∷ b ∷ t) s h k = Complete-append d (b ∷ t) s h k
