-- ===== src/Text.antt =====
-- std::string: a list of bytes. The equality of two texts is decided by `text_dec`.
use Prim.Native.Char.{code}
use Prim.Native.String.{String}
pub mod Lines
pub mod Words
pub mod Decimal
pub mod Numerals
pub mod Order
use dist_cache.Prelude.{ℕ, List, [], ◌∷◌, ℕ_discrete}

abbrev pub Text : Type 0
Text = List ℕ

-- `operator==` on strings.
unfoldable pub text_dec : Discrete Text
unfolding ℕ_discrete
text_dec = hlevel ℕ_discrete

-- The bytes of an ASCII literal.
abbrev pub codes : String → Text
codes String.[] = []
codes (String.◌∷◌ c s) = code c ∷ codes s
