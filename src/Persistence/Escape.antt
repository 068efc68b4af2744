-- ===== src/Persistence/Escape.antt =====
-- The escapes of MMapPersistence.cpp.
use dist_cache.Prelude.{ℕ, ◌≡◌, refl, ap, sym, ◌∙◌, ◌⊎◌, [], ◌∷◌, ◌++◌, arith, All-append}
use dist_cache.Text.{Text}
use dist_cache.Text.Lines.{Lacks}
use dist_cache.Persistence.{escape_byte, escape_string, unescape_string}

unescape-escape_byte :
    (c : ℕ) (rest : Text) → unescape_string (escape_byte c ++ rest) ≡ c ∷ unescape_string rest
unfolding unescape_string escape_byte
unescape-escape_byte c [] = ground arith
unescape-escape_byte c (d ∷ rest) = ground arith

escape-cons : (c : ℕ) (cs : Text) → escape_string (c ∷ cs) ≡ escape_byte c ++ escape_string cs
unfolding escape_string
escape-cons c cs = refl

-- Every text is read back from its escaped form.
pub unescape-escape : (s : Text) → unescape_string (escape_string s) ≡ s
unescape-escape [] = unfold escape_string unescape_string in refl
unescape-escape (c ∷ cs) =
    ap unescape_string (escape-cons c cs)
    ∙ unescape-escape_byte c (escape_string cs)
    ∙ ap (◌∷◌ c) (unescape-escape cs)

-- So two texts with the same escaped form are the same text.
pub escape-injective : (s t : Text) → escape_string s ≡ escape_string t → s ≡ t
escape-injective s t e = sym (unescape-escape s) ∙ ap unescape_string e ∙ unescape-escape t

escape_byte-Lacks : (d c : ℕ) → (d ≡ b' ') ⊎ (d ≡ b'\n') → Lacks d (escape_byte c)
unfolding escape_byte
escape_byte-Lacks d c h = ground arith

-- An escaped text has neither a space nor a line end.
pub escape-Lacks : (d : ℕ) (s : Text) → (d ≡ b' ') ⊎ (d ≡ b'\n') → Lacks d (escape_string s)
unfolding escape_string
escape-Lacks d [] h = tt
escape-Lacks d (c ∷ cs) h =
    All-append _ (escape_byte c) (escape_string cs) (escape_byte-Lacks d c h) (escape-Lacks d cs h)
