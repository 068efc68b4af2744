-- ===== src/Text/Decimal.antt =====
-- std::to_string of an unsigned number: its decimal digits.
use dist_cache.Prelude.{ℕ, zero, suc, ◌+◌, ◌/◌, ◌%◌, [], ◌∷◌, ◌==◌, if◌then◌else◌}
use dist_cache.Text.{Text}

abbrev pub digit : ℕ → ℕ
digit n = b'0' + n % 10

-- The digits go in front of `acc`, the last one first; a number has fewer digits than `suc n`.
unfoldable pub digits_from : ℕ → ℕ → Text → Text
digits_from zero n acc = acc
digits_from (suc fuel) n acc =
    let rest = digits_from fuel (n / 10) (digit n ∷ acc) in
    if n / 10 == 0 then digit n ∷ acc else rest

unfoldable pub to_string : ℕ → Text
unfolding digits_from
to_string n = digits_from (suc n) n []
