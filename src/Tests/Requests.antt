-- ===== src/Tests/Requests.antt =====
-- RESPParser as in tests/test_RESPParser.cpp.
use dist_cache.Prelude.{ℕ, ◌≡◌, ◌++◌, refl, List, [], ◌∷◌, some}
use dist_cache.Prelude.Int.{negsuc}
use dist_cache.Text.{Text, codes}
use dist_cache.Text.Lines.{getlines}
use dist_cache.Text.Decimal.{to_string}
use dist_cache.Text.Numerals.{IsDigit}
use dist_cache.Resp.{
  is_blank, find_first_not_blank, find_last_not_blank, trim, tokens_of, split, upper_byte, to_upper,
  command_of, parse_simple_string, parse, serialize, serialize_error, serialize_integer,
  serialize_bulk, serialize_nil, serialize_array,
}
use dist_cache.Resp.Requests.{parse-words}
use dist_cache.Resp.Frames.{parse-serialize_array}
use dist_cache.Resp.Reader.{array, decode, encode}
use dist_cache.Resp.Replies.{decode-encode}

program : Unit {0}
unfolding is_blank find_first_not_blank find_last_not_blank trim getlines tokens_of split upper_byte
    to_upper command_of parse_simple_string parse to_string serialize serialize_error
    serialize_integer serialize_bulk serialize_nil serialize_array
program = tt

parse_set : parse (codes "SET key value\r\n") ≡ (codes "SET", codes "key" ∷ codes "value" ∷ [])
unfolding program
parse_set = refl

parse_lower : parse (codes "  get   mykey  ") ≡ (codes "GET", codes "mykey" ∷ [])
unfolding program
parse_lower = refl

bulk_text : serialize_bulk (codes "hello") ≡ codes "$5\r\nhello\r\n"
unfolding program
bulk_text = refl

array_text : serialize_array (codes "a" ∷ codes "bc" ∷ []) ≡ codes "*2\r\n$1\r\na\r\n$2\r\nbc\r\n"
unfolding program
array_text = refl

negative : serialize_integer (negsuc 41) ≡ codes ":-42\r\n"
unfolding program
negative = refl

-- A ping as the serializer frames it.
frame_read : (parse (serialize_array (codes "ping" ∷ []))).0 ≡ codes "1\r\n$4\r\nPING"
unfolding program
frame_read = refl

abbrev words : List (ℕ × Text)
words = (2, codes "key") ∷ (0, codes "Value") ∷ []

abbrev request : Text
request = codes "\t set   key Value\r\n"

parse-words_example :
    (parse request ≡ (to_upper (codes "set"), codes "key" ∷ codes "Value" ∷ []))
    × (parse (b'*' ∷ request) ≡ (to_upper (codes "set"), codes "key" ∷ codes "Value" ∷ []))
    × (parse (b'$' ∷ request) ≡ (to_upper (codes "set"), codes "key" ∷ codes "Value" ∷ []))
unfolding is_blank
parse-words_example =
    parse-words (codes "\t ") (codes "set") (codes "\r\n") words (refl, (refl, tt))
      (refl, (refl, tt)) ((λ e. absurd cc), (refl, (refl, (refl, tt)))) (refl, refl)
      (
        ((λ e. absurd cc), (refl, (refl, (refl, tt)))),
        (((λ e. absurd cc), (refl, (refl, (refl, (refl, (refl, tt)))))), tt),
      )
      request refl

parse-serialize_array_example :
    (c : ℕ) × (t : Text) × ((parse (serialize_array (codes "ping" ∷ []))).0 ≡ c ∷ t) × IsDigit c
parse-serialize_array_example = parse-serialize_array (codes "ping" ∷ [])

decode-encode_example :
    decode (encode (array (codes "a\r\n" ∷ [] ∷ [])) ++ codes "+OK")
    ≡ some (array (codes "a\r\n" ∷ [] ∷ []), codes "+OK")
decode-encode_example = decode-encode (array (codes "a\r\n" ∷ [] ∷ [])) (codes "+OK") tt
