-- ===== src/Resp/Tokens.antt =====
-- The tokens that `split` of RESPParser.cpp returns, for any text.
use dist_cache.Prelude.{
  ℕ, ◌≡◌, ◌≢◌, refl, sym, ap, ◌∙◌, false, List, [], ◌∷◌, arith, All, Bool-cases, inl, inr,
  List-cases, ◌==◌,
}
use mathlib.Core.Path.{subst}
use dist_cache.Text.{Text}
use dist_cache.Text.Lines.{getlines, onto_first, Lacks}
use dist_cache.Resp.{is_blank, trim, tokens_of, split, parse, command_of, parse_simple_string}
use dist_cache.Resp.Trim.{skip_blanks, keep_before, cut_blanks, trim-cut_blanks}

cut_blanks_again : (t : Text) → cut_blanks (cut_blanks t) ≡ cut_blanks t
unfolding cut_blanks
cut_blanks_again [] = refl
cut_blanks_again (c ∷ t) = elim (List-cases (cut_blanks t)) [
  | inl e ↦ elim (Bool-cases (is_blank c)) [
    | inl blank ↦ ground (arith, e, blank)
    | inr solid ↦ ground (arith, e, solid)
  ]
  | inr (d, ds, e) ↦ ground (arith, e, cut_blanks_again t)
]

-- What is left at the front is no blank, and stays when the end is cut.
skip_blanks-cut : (t : Text) → skip_blanks (cut_blanks (skip_blanks t)) ≡ cut_blanks (skip_blanks t)
unfolding skip_blanks cut_blanks
skip_blanks-cut [] = refl
skip_blanks-cut (c ∷ t) = elim (Bool-cases (is_blank c)) [
  | inl blank ↦ rw blank (skip_blanks-cut t)
  | inr solid ↦ elim (List-cases (cut_blanks t)) [
    | inl e ↦ ground (arith, e, solid)
    | inr (d, ds, e) ↦ ground (arith, e, solid)
  ]
]

trim_again : (t : Text) → trim (trim t) ≡ trim t
trim_again t =
    trim-cut_blanks (trim t)
    ∙ ap (λ s. cut_blanks (skip_blanks s)) (trim-cut_blanks t)
    ∙ ap cut_blanks (skip_blanks-cut t)
    ∙ cut_blanks_again (skip_blanks t)
    ∙ sym (trim-cut_blanks t)

skip_blanks-Lacks : (d : ℕ) (t : Text) → Lacks d t → Lacks d (skip_blanks t)
unfolding skip_blanks
skip_blanks-Lacks d [] h = tt
skip_blanks-Lacks d (c ∷ t) h = ground (arith, skip_blanks-Lacks d t h.1)

keep_before-Lacks : (d c : ℕ) (t : Text) → (c == d) ≡ false → Lacks d t → Lacks d (keep_before c t)
keep_before-Lacks d c [] h k = ground (arith, h)
keep_before-Lacks d c (b ∷ t) h k = (h, k)

cut_blanks-Lacks : (d : ℕ) (t : Text) → Lacks d t → Lacks d (cut_blanks t)
unfolding cut_blanks
cut_blanks-Lacks d [] h = tt
cut_blanks-Lacks d (c ∷ t) h = keep_before-Lacks d c (cut_blanks t) h.0 (cut_blanks-Lacks d t h.1)

trim-Lacks : (d : ℕ) (t : Text) → Lacks d t → Lacks d (trim t)
trim-Lacks d t h =
    rw (trim-cut_blanks t) (cut_blanks-Lacks d (skip_blanks t) (skip_blanks-Lacks d t h))

onto_first-Lacks :
    (d c : ℕ) (ls : List Text)
    → (c == d) ≡ false
    → All (Lacks d) ls
    → All (Lacks d) (onto_first c ls)
onto_first-Lacks d c [] h k = ((h, tt), tt)
onto_first-Lacks d c (l ∷ ls) h k = ((h, k.0), k.1)

getlines-Lacks : (d : ℕ) (t : Text) → All (Lacks d) (getlines d t)
unfolding getlines
getlines-Lacks d [] = tt
getlines-Lacks d (c ∷ t) = elim (Bool-cases (c == d)) [
  | inl e ↦ rw e (tt, getlines-Lacks d t)
  | inr e ↦ rw e (onto_first-Lacks d c (getlines d t) e (getlines-Lacks d t))
]

-- A token is not empty, has no white space at its ends, and does not hold the delimiter.
pub record IsPiece (d : ℕ) (t : Text) : Type 0 where
  pub any : t ≢ []
  pub trimmed : trim t ≡ t
  pub whole : Lacks d t

tokens_of-dropped :
    (piece : Text) (pieces : List Text)
    → trim piece ≡ []
    → tokens_of (piece ∷ pieces) ≡ tokens_of pieces
unfolding tokens_of
tokens_of-dropped piece pieces e = ground (arith, e)

tokens_of-kept :
    (piece : Text) (pieces : List Text) (c : ℕ) (t : Text)
    → trim piece ≡ c ∷ t
    → tokens_of (piece ∷ pieces) ≡ trim piece ∷ tokens_of pieces
unfolding tokens_of
tokens_of-kept piece pieces c t e = ground (arith, e)

tokens_of-IsPiece :
    (d : ℕ) (pieces : List Text) → All (Lacks d) pieces → All (IsPiece d) (tokens_of pieces)
tokens_of-IsPiece d [] h = unfold tokens_of in tt
tokens_of-IsPiece d (piece ∷ pieces) h =
    let rest = tokens_of-IsPiece d pieces h.1 in
    elim (List-cases (trim piece)) [
      | inl e ↦ subst (All (IsPiece d)) (sym (tokens_of-dropped piece pieces e)) rest
      | inr (c, t, e) ↦ subst (All (IsPiece d)) (sym (tokens_of-kept piece pieces c t e)) (
        record { any = λ n. absurd cc; trimmed = trim_again piece; whole = trim-Lacks d piece h.0 },
        rest,
      )
    ]

split-IsPiece : (str : Text) (delimiter : ℕ) → All (IsPiece delimiter) (split str delimiter)
unfolding split
split-IsPiece str d = tokens_of-IsPiece d (getlines d str) (getlines-Lacks d str)

command_of-args :
    (d : ℕ) (tokens : List Text) → All (IsPiece d) tokens → All (IsPiece d) (command_of tokens).1
unfolding command_of
command_of-args d [] h = tt
command_of-args d (token ∷ args) h = h.1

parse_simple-args : (raw : Text) → All (IsPiece b' ') (parse_simple_string raw).1
unfolding parse_simple_string
parse_simple-args raw = command_of-args b' ' _ (split-IsPiece (trim raw) b' ')

-- Whatever bytes a client sends, no argument of its command is empty, has a space in it, or has
-- white space at its ends.
pub parse-args : (raw : Text) → All (IsPiece b' ') (parse raw).1
unfolding parse
parse-args [] = tt
parse-args (c ∷ cs) = elim (Bool-cases (c == b'*')) [
  | inl star ↦ rw star (parse_simple-args cs)
  | inr other ↦ elim (Bool-cases (c == b'$')) [
    | inl dollar ↦ rw (other, dollar) (parse_simple-args cs)
    | inr plain ↦ rw (other, plain) (parse_simple-args (c ∷ cs))
  ]
]
