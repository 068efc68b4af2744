-- ===== src/Resp/Reader.antt =====
-- A reader of the replies of RESP, by the protocol's description. It is what a client does with the
-- texts that the serializers of RESPParser.cpp write.
use dist_cache.Prelude.{
  ℕ, zero, suc, ◌+◌, ◌-◌, ◌*◌, Bool, ◌&&◌, List, [], ◌∷◌, Option, none, some, ◌==◌, leb,
  if◌then◌else◌, ◌>>=◌,
}
use dist_cache.Prelude.Int.{ℤ, pos, negsuc}
use dist_cache.Text.{Text}
use dist_cache.Resp.{
  serialize, serialize_error, serialize_integer, serialize_bulk, serialize_nil, serialize_array,
}

pub data Reply : Type 0 where
  status failure : Text → Reply
  integer : ℤ → Reply
  bulk : Text → Reply
  nil : Reply
  array : List Text → Reply

-- What the serializer for this kind of reply writes.
abbrev pub encode : Reply → Text
encode (status t) = serialize t
encode (failure t) = serialize_error t
encode (integer z) = serialize_integer z
encode (bulk t) = serialize_bulk t
encode nil = serialize_nil
encode (array items) = serialize_array items

unfoldable pub expect : ℕ → Text → Option Text
expect b [] = none
expect b (c ∷ cs) = if c == b then some cs else none

unfoldable pub line_end : Text → Option Text
unfolding expect
line_end t = expect b'\r' t >>= expect b'\n'

unfoldable pub read_line : Text → Option (Text × Text)
unfolding line_end
read_line [] = none
read_line (c ∷ cs) =
    let rest = read_line cs in
    if c == b'\r'
    then (line_end (c ∷ cs) >>= λ r. some ([], r))
    else (rest >>= λ r. some (c ∷ r.0, r.1))

abbrev pub is_digit : ℕ → Bool
is_digit c = leb b'0' c && leb c b'9'

unfoldable pub read_number : ℕ → Text → Option (ℕ × Text)
unfolding line_end
read_number acc [] = none
read_number acc (c ∷ cs) =
    let rest = read_number (acc * 10 + (c - b'0')) cs in
    if is_digit c then rest else line_end (c ∷ cs) >>= λ r. some (acc, r)

unfoldable pub take_exact : ℕ → Text → Option (Text × Text)
take_exact zero s = some ([], s)
take_exact (suc n) [] = none
take_exact (suc n) (c ∷ cs) = take_exact n cs >>= λ r. some (c ∷ r.0, r.1)

unfoldable pub decode_bulk : Text → Option (Text × Text)
unfolding read_number take_exact line_end
decode_bulk s = do
  (n, body) ← read_number 0 s
  (t, after) ← take_exact n body
  rest ← line_end after
  some (t, rest)

unfoldable pub decode_items : ℕ → Text → Option (List Text × Text)
unfolding decode_bulk expect
decode_items zero s = some ([], s)
decode_items (suc n) s = do
  body ← expect b'$' s
  (t, after) ← decode_bulk body
  (ts, rest) ← decode_items n after
  some (t ∷ ts, rest)

abbrev pub below_zero : ℕ → ℤ
below_zero zero = pos 0
below_zero (suc n) = negsuc n

unfoldable pub decode_integer : Text → Option (ℤ × Text)
unfolding read_number
decode_integer [] = none
decode_integer (c ∷ cs) =
    if c == b'-'
    then (read_number 0 cs >>= λ r. some (below_zero r.0, r.1))
    else (read_number 0 (c ∷ cs) >>= λ r. some (pos r.0, r.1))

-- A bulk string, or the null of length -1.
unfoldable pub decode_bulk_or_nil : Text → Option (Reply × Text)
unfolding decode_bulk expect
decode_bulk_or_nil [] = none
decode_bulk_or_nil (c ∷ cs) =
    if c == b'-'
    then (expect b'1' cs >>= λ r. line_end r >>= λ rest. some (nil, rest))
    else (decode_bulk (c ∷ cs) >>= λ r. some (bulk r.0, r.1))

-- A reply, and what follows it.
unfoldable pub decode : Text → Option (Reply × Text)
unfolding read_line decode_integer decode_bulk_or_nil read_number decode_items
decode [] = none
decode (c ∷ cs) =
    if c == b'+'
    then (read_line cs >>= λ r. some (status r.0, r.1))
    else if c == b'-'
    then (read_line cs >>= λ r. some (failure r.0, r.1))
    else if c == b':'
    then (decode_integer cs >>= λ r. some (integer r.0, r.1))
    else if c == b'$'
    then decode_bulk_or_nil cs
    else if c == b'*'
    then (read_number 0 cs >>= λ r. decode_items r.0 r.1 >>= λ i. some (array i.0, i.1))
    else none
