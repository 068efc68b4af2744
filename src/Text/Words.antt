-- ===== src/Text/Words.antt =====
-- Formatted extraction, `in >> word`: white space is skipped, then a word is read.
use dist_cache.Prelude.{
  ℕ, ◌≡◌, ◌≢◌, refl, Bool, true, false, ◌&&◌, ◌||◌, [], ◌∷◌, ◌++◌, arith, ◌==◌, leb, if◌then◌else◌,
  All,
}
use dist_cache.Text.{Text}

-- `isspace` in the C locale.
unfoldable pub is_space : ℕ → Bool
is_space c = c == b' ' || (leb b'\t' c && leb c b'\r')

unfoldable pub skip_space : Text → Text
skip_space [] = []
skip_space (c ∷ cs) = let rest = skip_space cs in if is_space c then rest else c ∷ cs

-- The word at the front, and what follows it.
unfoldable pub read_word : Text → Text × Text
read_word [] = ([], [])
read_word (c ∷ cs) =
    let (word, rest) = read_word cs in if is_space c then ([], c ∷ cs) else (c ∷ word, rest)

-- A word: not empty, and without white space.
abbrev pub IsWord : Text → Type 0
IsWord t = (t ≢ []) × All (λ c. is_space c ≡ false) t

pub skip_space_word : (t rest : Text) → IsWord t → skip_space (t ++ rest) ≡ t ++ rest
unfolding skip_space
skip_space_word [] rest h = absurd (h.0 refl)
skip_space_word (c ∷ cs) rest h = ground (arith, h.1.0)

-- What stops a word: the end of the text, or white space.
abbrev pub Stops : Text → Type 0
Stops [] = Unit {0}
Stops (c ∷ cs) = is_space c ≡ true

pub read_word_word :
    (t rest : Text)
    → All (λ c. is_space c ≡ false) t
    → Stops rest
    → read_word (t ++ rest) ≡ (t, rest)
unfolding read_word
read_word_word [] [] h s = refl
read_word_word [] (c ∷ rest) h s = ground (arith, s)
read_word_word (c ∷ cs) rest h s = ground (arith, h.0, read_word_word cs rest h.1 s)
