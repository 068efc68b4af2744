-- ===== src/Resp/Replies.antt =====
-- The replies that the serializers of RESPParser.cpp write, as a client reads them.
use dist_cache.Prelude.{
  ℕ, suc, ◌+◌, ◌-◌, ◌*◌, ◌≡◌, refl, List, [], ◌∷◌, ◌++◌, some, arith, All, length, append_assoc,
  ◌∙◌, ap,
}
use dist_cache.Prelude.Int.{ℤ, pos, negsuc}
use dist_cache.Text.{Text}
use dist_cache.Text.Lines.{Lacks}
use dist_cache.Text.Decimal.{to_string}
use dist_cache.Text.Numerals.{IsDigit, value, Spells, to_string-Spells}
use dist_cache.Resp.{
  crlf, serialize, serialize_error, serialize_integer, serialize_bulk, serialize_nil,
  serialize_array, serialize_items, to_string_ℤ,
}
use dist_cache.Resp.Reader.{
  Reply, status, failure, integer, bulk, nil, array, encode, expect, line_end, read_line,
  read_number, take_exact, decode_bulk, decode_items, decode_integer, decode_bulk_or_nil, decode,
}

-- A status or an error has no carriage return; the other replies may hold any bytes.
abbrev pub IsClean : Reply → Type 0
IsClean (status t) = Lacks b'\r' t
IsClean (failure t) = Lacks b'\r' t
IsClean _ = Unit {0}

read_line-line : (t rest : Text) → Lacks b'\r' t → read_line (t ++ (crlf ++ rest)) ≡ some (t, rest)
unfolding read_line
read_line-line [] rest h = unfold line_end expect in refl
read_line-line (c ∷ t) rest h = ground (arith, h.0, read_line-line t rest h.1)

read_number-digits :
    (acc : ℕ) (t rest : Text)
    → All IsDigit t
    → read_number acc (t ++ (crlf ++ rest)) ≡ some (value acc t, rest)
unfolding read_number
read_number-digits acc [] rest h = unfold line_end expect in refl
read_number-digits acc (c ∷ t) rest h =
    ground (arith, h.0, read_number-digits (acc * 10 + (c - b'0')) t rest h.1)

read_number-to_string :
    (n : ℕ) (rest : Text) → read_number 0 (to_string n ++ (crlf ++ rest)) ≡ some (n, rest)
read_number-to_string n rest =
    let s = to_string-Spells n in
    rw (read_number-digits 0 (to_string n) rest s.digits, s.number) refl

take_exact-append : (t rest : Text) → take_exact (length t) (t ++ rest) ≡ some (t, rest)
unfolding take_exact
take_exact-append [] rest = refl
take_exact-append (c ∷ t) rest = ground (arith, take_exact-append t rest)

decode_bulk-body :
    (t rest : Text)
    → decode_bulk (to_string (length t) ++ (crlf ++ (t ++ (crlf ++ rest)))) ≡ some (t, rest)
unfolding decode_bulk
decode_bulk-body t rest =
    rw (read_number-to_string (length t) (t ++ (crlf ++ rest)), take_exact-append t (crlf ++ rest))
      (unfold line_end expect in refl)

-- What follows a bulk string moves inside the frame.
frame_assoc :
    (n t rest : Text) → (n ++ (crlf ++ (t ++ crlf))) ++ rest ≡ n ++ (crlf ++ (t ++ (crlf ++ rest)))
frame_assoc n t rest =
    append_assoc n (crlf ++ (t ++ crlf)) rest
    ∙ ap (λ s. n ++ (crlf ++ s)) (append_assoc t crlf rest)

decode_items-items :
    (items : List Text) (rest : Text)
    → decode_items (length items) (serialize_items items ++ rest) ≡ some (items, rest)
unfolding decode_items serialize_bulk expect
decode_items-items [] rest = refl
decode_items-items (t ∷ items) rest =
    let n = to_string (length t) in
    rw
      (
        append_assoc (n ++ (crlf ++ (t ++ crlf))) (serialize_items items) rest,
        frame_assoc n t (serialize_items items ++ rest),
        decode_bulk-body t (serialize_items items ++ rest),
        decode_items-items items rest,
      )
      refl

decode_integer-digits :
    (n : ℕ) (t rest : Text) → Spells n t → decode_integer (t ++ (crlf ++ rest)) ≡ some (pos n, rest)
unfolding decode_integer
decode_integer-digits n [] rest s = absurd (s.any refl)
decode_integer-digits n (c ∷ t) rest s =
    ground (arith, s.digits.0, s.number, read_number-digits 0 (c ∷ t) rest s.digits)

decode_integer-to_string :
    (z : ℤ) (rest : Text) → decode_integer (to_string_ℤ z ++ (crlf ++ rest)) ≡ some (z, rest)
decode_integer-to_string (pos n) rest =
    decode_integer-digits n (to_string n) rest (to_string-Spells n)
decode_integer-to_string (negsuc n) rest =
    unfold decode_integer in rw (read_number-to_string (suc n) rest) refl

-- The first byte of a length is not the sign of the null.
decode_bulk_or_nil-digits :
    (n : ℕ) (t s rest body : Text)
    → Spells n t
    → decode_bulk (t ++ s) ≡ some (body, rest)
    → decode_bulk_or_nil (t ++ s) ≡ some (bulk body, rest)
unfolding decode_bulk_or_nil
decode_bulk_or_nil-digits n [] s rest body p h = absurd (p.any refl)
decode_bulk_or_nil-digits n (c ∷ t) s rest body p h = ground (arith, p.digits.0, h)

-- A client that reads what a serializer writes gets the reply back, and reads no further than its
-- end, whatever follows. A status or an error has no carriage return; the bulk strings and the
-- items of an array may hold any bytes.
pub decode-encode :
    (r : Reply) (rest : Text) → IsClean r → decode (encode r ++ rest) ≡ some (r, rest)
unfolding decode
decode-encode (status t) rest h =
    unfold serialize in rw (append_assoc t crlf rest, read_line-line t rest h) refl
decode-encode (failure t) rest h =
    unfold serialize_error in rw (append_assoc t crlf rest, read_line-line t rest h) refl
decode-encode (integer z) rest h =
    unfold serialize_integer in
    rw (append_assoc (to_string_ℤ z) crlf rest, decode_integer-to_string z rest) refl
decode-encode (bulk t) rest h =
    unfold serialize_bulk in
    rw (frame_assoc (to_string (length t)) t rest) (
      decode_bulk_or_nil-digits (length t) (to_string (length t)) _ rest t
        (to_string-Spells (length t)) (decode_bulk-body t rest))
decode-encode nil rest h = unfold serialize_nil decode_bulk_or_nil expect line_end in refl
decode-encode (array items) rest h =
    unfold serialize_array in
    let n = to_string (length items) in
    rw
      (
        append_assoc n (crlf ++ serialize_items items) rest,
        read_number-to_string (length items) (serialize_items items ++ rest),
        decode_items-items items rest,
      )
      refl
