-- ===== src/Resp/Frames.antt =====
-- What `parse` of RESPParser.cpp makes of the arrays that its own serializer writes.
use dist_cache.Prelude.{
  ℕ, ◌≡◌, refl, ap, ◌∙◌, false, List, [], ◌∷◌, ◌++◌, arith, length, inl, inr, List-cases,
}
use dist_cache.Text.{Text}
use dist_cache.Text.Lines.{getlines}
use dist_cache.Text.Decimal.{to_string}
use dist_cache.Text.Numerals.{IsDigit, Spells, to_string-Spells}
use dist_cache.Resp.{
  is_blank, trim, tokens_of, parse, parse_simple_string, to_upper, serialize_array, serialize_items,
  crlf,
}
use dist_cache.Resp.Trim.{cut_blanks, trim_solid}
use dist_cache.Resp.Requests.{parse_simple-tokens}

trim-head : (c : ℕ) (cs : Text) → is_blank c ≡ false → (t : Text) × (trim (c ∷ cs) ≡ c ∷ t)
unfolding cut_blanks
trim-head c cs h = elim (List-cases (cut_blanks cs)) [
  | inl e ↦ ([], trim_solid c cs h ∙ ground (arith, h, e))
  | inr (d, ds, e) ↦ (d ∷ ds, trim_solid c cs h ∙ ground (arith, e))
]

getlines-head :
    (c : ℕ) (cs : Text)
    → is_blank c ≡ false
    → (l : Text) × (ls : List Text) × (getlines b' ' (c ∷ cs) ≡ (c ∷ l) ∷ ls)
unfolding getlines is_blank
getlines-head c cs h = elim (List-cases (getlines b' ' cs)) [
  | inl e ↦ ([], [], ground (arith, h, e))
  | inr (l, ls, e) ↦ (l, ls, ground (arith, h, e))
]

tokens_of-head :
    (c : ℕ) (l : Text) (ls : List Text)
    → is_blank c ≡ false
    → (t : Text) × (tokens_of ((c ∷ l) ∷ ls) ≡ (c ∷ t) ∷ tokens_of ls)
unfolding tokens_of
tokens_of-head c l ls h = let (t, e) = trim-head c l h in (t, ground (arith, e))

-- The command starts with the first byte, where that is not blank.
parse_simple-head :
    (c : ℕ) (cs : Text)
    → is_blank c ≡ false
    → (t : Text) × (args : List Text) × (parse_simple_string (c ∷ cs) ≡ (to_upper (c ∷ t), args))
parse_simple-head c cs h =
    let (line, trimmed) = trim-head c cs h in
    let (l, ls, cut) = getlines-head c line h in
    let (t, tokens) = tokens_of-head c l ls h in
    (
      t,
      tokens_of ls,
      parse_simple-tokens (c ∷ cs) (c ∷ line) (c ∷ t) (tokens_of ls) trimmed
          (ap tokens_of cut ∙ tokens),
    )

digits-head :
    (n : ℕ) (t s : Text)
    → Spells n t
    → (c : ℕ) × (u : Text) × ((parse_simple_string (t ++ s)).0 ≡ c ∷ u) × IsDigit c
unfolding to_upper is_blank
digits-head n [] s p = absurd (p.any refl)
digits-head n (c ∷ t) s p =
    let (u, args, e) = parse_simple-head c (t ++ s) (ground (arith, p.digits.0)) in
    (c, to_upper u, ap (λ r. r.0) e ∙ ground (arith, p.digits.0), p.digits.0)

-- The command that `parse` reads from an array of `serialize_array` starts with a digit, whatever
-- the items are.
pub parse-serialize_array :
    (items : List Text)
    → (c : ℕ) × (t : Text) × ((parse (serialize_array items)).0 ≡ c ∷ t) × IsDigit c
unfolding parse serialize_array
parse-serialize_array items =
    digits-head (length items) (to_string (length items)) (crlf ++ serialize_items items)
      (to_string-Spells (length items))
