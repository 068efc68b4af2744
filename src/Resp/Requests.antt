-- ===== src/Resp/Requests.antt =====
-- What `parse` of RESPParser.cpp makes of a line of words.
use dist_cache.Prelude.{
  ℕ, zero, suc, ◌≡◌, ◌≢◌, refl, sym, ◌∙◌, false, List, [], ◌∷◌, ◌++◌, arith, All, map, ◌==◌,
  append-nil, append_assoc, ap,
}
use mathlib.Core.Path.{subst}
use dist_cache.Text.{Text}
use dist_cache.Text.Lines.{getlines, getlines_line, getlines_last, Lacks}
use dist_cache.Resp.{
  is_blank, trim, find_first_not_blank, tokens_of, split, parse, parse_simple_string, command_of,
  to_upper,
}
use dist_cache.Resp.Trim.{
  skip_blanks, cut_blanks, trim-cut_blanks, IsToken, IsBlank, skip_blanks_lead, skip_blanks_token,
  cut_blanks_trail, cut_blanks_token, cut_blanks-append, trim_token,
}

abbrev pub spaces : ℕ → Text
spaces zero = []
spaces (suc n) = b' ' ∷ spaces n

-- Words, each behind one space and as many more as its number says.
abbrev pub words_after : List (ℕ × Text) → Text
words_after [] = []
words_after ((gap, w) ∷ rest) = b' ' ∷ (spaces gap ++ (w ++ words_after rest))

abbrev pub AreTokens : List (ℕ × Text) → Type 0
AreTokens = All (λ e. IsToken e.1)

token-Lacks : (t : Text) → All (λ c. is_blank c ≡ false) t → Lacks b' ' t
unfolding is_blank
token-Lacks [] h = tt
token-Lacks (c ∷ t) h = (ground (arith, h.0), token-Lacks t h.1)

tokens_of_token :
    (t : Text) (pieces : List Text) → IsToken t → tokens_of (t ∷ pieces) ≡ t ∷ tokens_of pieces
unfolding tokens_of
tokens_of_token [] pieces h = absurd (h.0 refl)
tokens_of_token (c ∷ t) pieces h = ground (arith, trim_token (c ∷ t) h)

-- A piece between two spaces in a row is passed over.
tokens_of_empty : (pieces : List Text) → tokens_of ([] ∷ pieces) ≡ tokens_of pieces
unfolding tokens_of trim find_first_not_blank
tokens_of_empty pieces = refl

token-append : (v s : Text) → IsToken v → v ++ s ≢ []
token-append [] s h = absurd (h.0 refl)
token-append (c ∷ v) s h = λ e. absurd cc

tokens_of_line :
    (gap : ℕ) (w : Text) (rest : List (ℕ × Text))
    → IsToken w
    → AreTokens rest
    → tokens_of (getlines b' ' (spaces gap ++ (w ++ words_after rest))) ≡ w ∷ map (λ e. e.1) rest
tokens_of_line (suc gap) w rest h k =
    let t = spaces gap ++ (w ++ words_after rest) in
    rw (getlines_line b' ' [] t tt) (tokens_of_empty _ ∙ tokens_of_line gap w rest h k)
tokens_of_line zero [] [] h k = absurd (h.0 refl)
tokens_of_line zero (c ∷ w) [] h k =
    rw (append-nil w, getlines_last b' ' c w (token-Lacks (c ∷ w) h.1))
      (tokens_of_token (c ∷ w) [] h ∙ unfold tokens_of in refl)
tokens_of_line zero w ((gap, v) ∷ rest) h k =
    rw (getlines_line b' ' w (spaces gap ++ (v ++ words_after rest)) (token-Lacks w h.1))
      (tokens_of_token w _ h ∙ ap (◌∷◌ w) (tokens_of_line gap v rest k.0 k.1))

line-cut_blanks :
    (w : Text) (rest : List (ℕ × Text))
    → IsToken w
    → AreTokens rest
    → cut_blanks (w ++ words_after rest) ≡ w ++ words_after rest
line-cut_blanks w [] h k = rw (append-nil w) (cut_blanks_token w h.1)
line-cut_blanks w ((gap, v) ∷ rest) h k =
    let t = v ++ words_after rest in
    subst (λ s. cut_blanks s ≡ s) (append_assoc w (b' ' ∷ spaces gap) t)
      (cut_blanks-append (w ++ b' ' ∷ spaces gap) t (token-append v _ k.0)
        (line-cut_blanks v rest k.0 k.1))

trim_line :
    (lead w trail : Text) (rest : List (ℕ × Text))
    → IsBlank lead
    → IsBlank trail
    → IsToken w
    → AreTokens rest
    → trim (lead ++ ((w ++ words_after rest) ++ trail)) ≡ w ++ words_after rest
trim_line lead w trail rest l t h k =
    trim-cut_blanks _
    ∙ ap cut_blanks (
        skip_blanks_lead lead _ l
        ∙ ap skip_blanks (append_assoc w (words_after rest) trail)
        ∙ skip_blanks_token w (words_after rest ++ trail) h
        ∙ sym (append_assoc w (words_after rest) trail))
    ∙ cut_blanks_trail (w ++ words_after rest) trail t
    ∙ line-cut_blanks w rest h k

-- A text with a trimmed line reads as the tokens of the line.
pub parse_simple-tokens :
    (raw line token : Text) (args : List Text)
    → trim raw ≡ line
    → tokens_of (getlines b' ' line) ≡ token ∷ args
    → parse_simple_string raw ≡ (to_upper token, args)
unfolding parse_simple_string split command_of
parse_simple-tokens raw line token args h k = ground (arith, h, k)

-- The first byte does not ask for another kind of request.
abbrev pub Unframed : Text → Type 0
Unframed [] = Unit {0}
Unframed (c ∷ cs) = ((c == b'*') ≡ false) × ((c == b'$') ≡ false)

blank-Unframed :
    (lead w s : Text) → IsBlank lead → IsToken w → Unframed w → Unframed (lead ++ (w ++ s))
unfolding is_blank
blank-Unframed [] [] s l h u = absurd (h.0 refl)
blank-Unframed [] (c ∷ w) s l h u = u
blank-Unframed (c ∷ lead) w s l h u = (ground (arith, l.0), ground (arith, l.0))

parse-Unframed : (raw : Text) → Unframed raw → parse raw ≡ parse_simple_string raw
unfolding parse
parse-Unframed [] u =
    unfold parse_simple_string command_of split trim find_first_not_blank tokens_of getlines in refl
parse-Unframed (c ∷ cs) u = ground (arith, u.0, u.1)

-- A request is read word by word, whatever spaces stand between the words and whatever white space
-- stands around the line: the first word in capitals is the command, and the others are the
-- arguments as they are. A star or a dollar sign in front of it is dropped. The words are not empty
-- and have no blanks, and the first word does not itself begin with one of the two signs.
pub parse-words :
    (lead w trail : Text) (rest : List (ℕ × Text))
    → IsBlank lead
    → IsBlank trail
    → IsToken w
    → Unframed w
    → AreTokens rest
    → (raw : Text) → raw ≡ lead ++ ((w ++ words_after rest) ++ trail)
    → (parse raw ≡ (to_upper w, map (λ e. e.1) rest))
      × (parse (b'*' ∷ raw) ≡ (to_upper w, map (λ e. e.1) rest))
      × (parse (b'$' ∷ raw) ≡ (to_upper w, map (λ e. e.1) rest))
parse-words lead w trail rest l t h u k raw e =
    let line = w ++ words_after rest in
    let simple : parse_simple_string raw ≡ (to_upper w, map (λ e. e.1) rest) =
      parse_simple-tokens raw line w (map (λ e. e.1) rest)
        (rw e (trim_line lead w trail rest l t h k)) (tokens_of_line 0 w rest h k) in
    let plain : Unframed raw =
      rw (e, append_assoc w (words_after rest) trail) (blank-Unframed lead w _ l h u) in
    (parse-Unframed raw plain ∙ simple, unfold parse in simple, unfold parse in simple)
