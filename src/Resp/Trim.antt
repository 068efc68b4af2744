-- ===== src/Resp/Trim.antt =====
-- What `trim` of RESPParser.cpp takes away: it is a skip at the front and a cut at the end.
use dist_cache.Prelude.{
  append-nil, sym, ℕ, suc, ◌≡◌, ◌≢◌, ◌≤◌, refl, ◌∙◌, true, false, [], ◌∷◌, ◌++◌, none, some, arith,
  take, if◌then◌else◌, Bool-cases, Option-cases, inl, inr, All,
}
use dist_cache.Text.{Text}
use dist_cache.Resp.{is_blank, find_first_not_blank, find_last_not_blank, trim}

unfoldable pub skip_blanks : Text → Text
skip_blanks [] = []
skip_blanks (c ∷ cs) = let rest = skip_blanks cs in if is_blank c then rest else c ∷ cs

-- A byte in front of a text whose end has been cut.
abbrev pub keep_before : ℕ → Text → Text
keep_before c [] = if is_blank c then [] else c ∷ []
keep_before c (d ∷ ds) = c ∷ d ∷ ds

unfoldable pub cut_blanks : Text → Text
cut_blanks [] = []
cut_blanks (c ∷ cs) = keep_before c (cut_blanks cs)

-- The last byte that is not blank is not before the first.
find_last-after :
    (s : Text) (i : ℕ)
    → find_first_not_blank s ≡ some i
    → (j : ℕ) × (find_last_not_blank s ≡ some j) × (i ≤ j)
unfolding find_first_not_blank find_last_not_blank
find_last-after [] i h = cc
find_last-after (c ∷ cs) i h = elim (Option-cases (find_first_not_blank cs)) [
  | inl none_left ↦ elim (Option-cases (find_last_not_blank cs)) [
    | inl e ↦ (0, ground (arith, h, none_left, e), ground (arith, h, none_left, e))
    | inr (j, e) ↦ (suc j, ground (arith, h, none_left, e), ground (arith, h, none_left, e))
  ]
  | inr (k, first) ↦
      let (j, last, le) = find_last-after cs k first in
      (suc j, ground (arith, last), ground (arith, h, first, le))
]

cut_blanks-take :
    (s : Text) → cut_blanks s ≡ elim (find_last_not_blank s) [ none ↦ [] | some j ↦ take (suc j) s ]
unfolding cut_blanks find_last_not_blank
cut_blanks-take [] = refl
cut_blanks-take (c ∷ cs) = ground (arith, cut_blanks-take cs)

pub trim_blank : (c : ℕ) (cs : Text) → is_blank c ≡ true → trim (c ∷ cs) ≡ trim cs
unfolding trim find_first_not_blank find_last_not_blank
trim_blank c cs h = elim (Option-cases (find_first_not_blank cs)) [
  | inl none_left ↦ ground (arith, h, none_left)
  | inr (k, first) ↦
      let (j, last, le) = find_last-after cs k first in ground (arith, h, first, last, le)
]

pub trim_solid : (c : ℕ) (cs : Text) → is_blank c ≡ false → trim (c ∷ cs) ≡ cut_blanks (c ∷ cs)
unfolding trim find_first_not_blank
trim_solid c cs h = ground (arith, h, cut_blanks-take (c ∷ cs))

-- Blanks are skipped at the front and cut off at the end.
pub trim-cut_blanks : (s : Text) → trim s ≡ cut_blanks (skip_blanks s)
unfolding skip_blanks
trim-cut_blanks [] = unfold trim cut_blanks find_first_not_blank in refl
trim-cut_blanks (c ∷ cs) = elim (Bool-cases (is_blank c)) [
  | inl blank ↦ rw blank (trim_blank c cs blank ∙ trim-cut_blanks cs)
  | inr solid ↦ rw solid (trim_solid c cs solid)
]

-- A token: not empty, and without blanks.
abbrev pub IsToken : Text → Type 0
IsToken t = (t ≢ []) × All (λ c. is_blank c ≡ false) t

-- White space.
abbrev pub IsBlank : Text → Type 0
IsBlank = All (λ c. is_blank c ≡ true)

pub skip_blanks_lead : (lead s : Text) → IsBlank lead → skip_blanks (lead ++ s) ≡ skip_blanks s
unfolding skip_blanks
skip_blanks_lead [] s h = refl
skip_blanks_lead (c ∷ lead) s h = ground (arith, h.0, skip_blanks_lead lead s h.1)

pub skip_blanks_token : (t s : Text) → IsToken t → skip_blanks (t ++ s) ≡ t ++ s
unfolding skip_blanks
skip_blanks_token [] s h = absurd (h.0 refl)
skip_blanks_token (c ∷ t) s h = ground (arith, h.1.0)

cut_blanks_blank : (trail : Text) → IsBlank trail → cut_blanks trail ≡ []
unfolding cut_blanks
cut_blanks_blank [] h = refl
cut_blanks_blank (c ∷ trail) h = ground (arith, h.0, cut_blanks_blank trail h.1)

pub cut_blanks_trail : (s trail : Text) → IsBlank trail → cut_blanks (s ++ trail) ≡ cut_blanks s
unfolding cut_blanks
cut_blanks_trail [] trail h = cut_blanks_blank trail h
cut_blanks_trail (c ∷ s) trail h = ground (arith, cut_blanks_trail s trail h)

pub cut_blanks_token : (t : Text) → All (λ c. is_blank c ≡ false) t → cut_blanks t ≡ t
unfolding cut_blanks
cut_blanks_token [] h = refl
cut_blanks_token (c ∷ []) h = ground (arith, h.0)
cut_blanks_token (c ∷ d ∷ t) h = ground (arith, cut_blanks_token (d ∷ t) h.1)

-- The cut stops before a text that it leaves alone.
pub cut_blanks-append : (s t : Text) → t ≢ [] → cut_blanks t ≡ t → cut_blanks (s ++ t) ≡ s ++ t
unfolding cut_blanks
cut_blanks-append s [] n h = absurd (n refl)
cut_blanks-append [] (d ∷ t) n h = h
cut_blanks-append (c ∷ []) (d ∷ t) n h = ground (arith, h)
cut_blanks-append (c ∷ b ∷ s) (d ∷ t) n h = ground (arith, cut_blanks-append (b ∷ s) (d ∷ t) n h)

pub trim_token : (t : Text) → IsToken t → trim t ≡ t
trim_token t h =
    rw (trim-cut_blanks t, sym (append-nil t), skip_blanks_token t [] h, append-nil t)
      (cut_blanks_token t h.1)
