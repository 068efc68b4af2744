-- ===== src/Text/Numerals.antt =====
-- The digits that `to_string` writes, read back.
use dist_cache.Prelude.{
  ℕ, zero, suc, ◌+◌, ◌-◌, ◌*◌, ◌/◌, ◌<◌, ◌≤◌, ◌≡◌, ◌≢◌, refl, Bool-cases, inl, inr, [], ◌∷◌, ◌++◌,
  arith, All, All-append, ◌==◌, append_assoc, ◌∙◌, sym, append-nil,
}
use dist_cache.Text.{Text}
use dist_cache.Text.Decimal.{digit, digits_from, to_string}

abbrev pub IsDigit : ℕ → Type 0
IsDigit c = (b'0' ≤ c) × (c ≤ b'9')

-- The number that digits stand for, behind the digits of `acc`.
abbrev pub value : ℕ → Text → ℕ
value acc [] = acc
value acc (c ∷ cs) = value (acc * 10 + (c - b'0')) cs

value-append : (acc : ℕ) (xs ys : Text) → value acc (xs ++ ys) ≡ value (value acc xs) ys
value-append acc [] ys = refl
value-append acc (x ∷ xs) ys = value-append (acc * 10 + (x - b'0')) xs ys

-- A text of digits for a number.
pub record Spells (n : ℕ) (t : Text) : Type 0 where
  pub digits : All IsDigit t
  pub number : value 0 t ≡ n
  pub any : t ≢ []

digit-Spells : (n : ℕ) → n / 10 ≡ 0 → Spells n (digit n ∷ [])
digit-Spells n h = record {
  digits = ((omega arith, omega arith), tt);
  number = omega (arith, h);
  any = λ e. absurd cc;
}

append_any : (t : Text) (c : ℕ) → t ++ c ∷ [] ≢ []
append_any [] c = λ e. absurd cc
append_any (d ∷ t) c = λ e. absurd cc

more-Spells : (n : ℕ) (t : Text) → Spells (n / 10) t → Spells n (t ++ digit n ∷ [])
more-Spells n t s = record {
  digits = All-append IsDigit t (digit n ∷ []) s.digits ((omega arith, omega arith), tt);
  number = value-append 0 t (digit n ∷ []) ∙ omega (arith, s.number);
  any = append_any t (digit n);
}

digits_from-Spells :
    (fuel n : ℕ) (acc : Text)
    → n < fuel
    → (t : Text) × (digits_from fuel n acc ≡ t ++ acc) × Spells n t
unfolding digits_from
digits_from-Spells zero n acc h = absurd (omega arith)
digits_from-Spells (suc fuel) n acc h = elim (Bool-cases (n / 10 == 0)) [
  | inl last ↦ (digit n ∷ [], rw last refl, digit-Spells n (ground (arith, last)))
  | inr more ↦
      let (t, e, s) = digits_from-Spells fuel (n / 10) (digit n ∷ acc) (ground (arith, more)) in
      (t ++ digit n ∷ [], rw more (e ∙ sym (append_assoc t (digit n ∷ []) acc)), more-Spells n t s)
]

pub to_string-Spells : (n : ℕ) → Spells n (to_string n)
unfolding to_string
to_string-Spells n =
    let (t, e, s) = digits_from-Spells (suc n) n [] (omega arith) in rw (e, append-nil t) s
