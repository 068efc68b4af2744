-- ===== src/Resp.antt =====
-- src/network/RESPParser.h and RESPParser.cpp. The parser keeps no state. `toupper` is the C
-- locale's, and leaves the bytes from 128 on as they are.
pub mod Trim
pub mod Requests
pub mod Reader
pub mod Replies
pub mod Tokens
pub mod Frames
use dist_cache.Prelude.{
  ℕ, zero, suc, ◌+◌, ◌-◌, ◌^◌, Bool, true, false, ◌&&◌, ◌||◌, List, [], ◌∷◌, ◌++◌, Option, none,
  some, ◌==◌, leb, length, take, drop, map, if◌then◌else◌,
}
use dist_cache.Prelude.Int.{ℤ, pos, negsuc}
use dist_cache.Text.{Text, codes}
use dist_cache.Text.Lines.{getlines}
use dist_cache.Text.Decimal.{to_string}

-- A byte of " \t\r\n".
unfoldable pub is_blank : ℕ → Bool
is_blank c = c == b' ' || (c == b'\t' || (c == b'\r' || c == b'\n'))

abbrev pub npos : ℕ
npos = 2 ^ 64 - 1

-- `str.find_first_not_of(" \t\r\n")`, with `none` for `npos`.
unfoldable pub find_first_not_blank : Text → Option ℕ
find_first_not_blank [] = none
find_first_not_blank (c ∷ cs) =
    let rest = find_first_not_blank cs in
    if is_blank c then elim rest [ none ↦ none | some i ↦ some (suc i) ] else some 0

unfoldable pub find_last_not_blank : Text → Option ℕ
find_last_not_blank [] = none
find_last_not_blank (c ∷ cs) = elim (find_last_not_blank cs) [
  | none ↦ if is_blank c then none else some 0
  | some i ↦ some (suc i)
]

abbrev pub index : Option ℕ → ℕ
index none = npos
index (some i) = i

abbrev pub substr : Text → ℕ → ℕ → Text
substr t first count = take count (drop first t)

unfoldable pub trim : Text → Text
unfolding find_first_not_blank find_last_not_blank
trim str = elim (find_first_not_blank str) [
  | none ↦ []
  | some first ↦ substr str first (index (find_last_not_blank str) - first + 1)
]

-- The loop of `split`, over what its calls of `getline` read.
unfoldable pub tokens_of : List Text → List Text
unfolding trim
tokens_of [] = []
tokens_of (piece ∷ pieces) =
    let rest = tokens_of pieces in elim (trim piece) [ [] ↦ rest | c ∷ cs ↦ (c ∷ cs) ∷ rest ]

unfoldable pub split : Text → ℕ → List Text
unfolding tokens_of
split str delimiter = tokens_of (getlines delimiter str)

unfoldable pub upper_byte : ℕ → ℕ
upper_byte c = if leb b'a' c && leb c b'z' then c - 32 else c

unfoldable pub to_upper : Text → Text
unfolding upper_byte
to_upper str = map upper_byte str

-- The command and the arguments of a list of tokens.
unfoldable pub command_of : List Text → Text × List Text
unfolding to_upper
command_of [] = ([], [])
command_of (token ∷ args) = (to_upper token, args)

unfoldable pub parse_simple_string : Text → Text × List Text
unfolding split command_of
parse_simple_string raw = command_of (split (trim raw) b' ')

-- `parse_array` and `parse_bulk_string` both drop the first byte and read a simple string.
unfoldable pub parse : Text → Text × List Text
unfolding parse_simple_string
parse [] = ([], [])
parse (c ∷ cs) =
    if c == b'*'
    then parse_simple_string cs
    else if c == b'$'
    then parse_simple_string cs
    else parse_simple_string (c ∷ cs)

abbrev pub crlf : Text
crlf = b'\r' ∷ b'\n' ∷ []

unfoldable pub serialize : Text → Text
serialize result = b'+' ∷ (result ++ crlf)

unfoldable pub serialize_error : Text → Text
serialize_error error = b'-' ∷ (error ++ crlf)

abbrev pub to_string_ℤ : ℤ → Text
to_string_ℤ (pos n) = to_string n
to_string_ℤ (negsuc n) = b'-' ∷ to_string (suc n)

unfoldable pub serialize_integer : ℤ → Text
serialize_integer value = b':' ∷ (to_string_ℤ value ++ crlf)

unfoldable pub serialize_bulk : Text → Text
serialize_bulk data_ = b'$' ∷ (to_string (length data_) ++ (crlf ++ (data_ ++ crlf)))

unfoldable pub serialize_nil : Text
serialize_nil = codes "$-1" ++ crlf

abbrev pub serialize_items : List Text → Text
serialize_items [] = []
serialize_items (item ∷ items) = serialize_bulk item ++ serialize_items items

unfoldable pub serialize_array : List Text → Text
serialize_array items = b'*' ∷ (to_string (length items) ++ (crlf ++ serialize_items items))
