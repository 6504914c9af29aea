-- ===== src/RespParser.antt =====
-- include/resp_parser.hpp and src/resp_parser.cpp: the incremental parser of RESP commands.
-- The parser's state is its buffer. Positions are indices into it, as in the source.
pub mod Incremental
pub mod RoundTrip
use epochkv.Prelude.{
  ℕ, zero, suc, ◌+◌, ◌-◌, ◌*◌, ◌/◌, ◌^◌, List, [], ◌∷◌, ◌++◌, Bool, true, false, not, ◌&&◌, ◌||◌,
  Option, none, some, Bytes, ◌==◌, ltb, leb, if◌then◌else◌, take, drop, get_or, length,
}

abbrev pub size_max : ℕ
size_max = 2 ^ 64 - 1

-- The loop of `parse_length` over the bytes of the range.
unfoldable pub parse_digits : ℕ → Bytes → Option ℕ
parse_digits value [] = some value
parse_digits value (c ∷ cs) =
    if ltb c b'0' || ltb b'9' c
    then none
    else if ltb ((size_max - (c - b'0')) / 10) value
    then none
    else parse_digits (value * 10 + (c - b'0')) cs

unfoldable pub parse_length : Bytes → ℕ → ℕ → Option ℕ
unfolding parse_digits
parse_length buf begin end =
    if leb end begin then none else parse_digits 0 (take (end - begin) (drop begin buf))

-- The first "\r\n".
unfoldable pub index_of_crlf : Bytes → Option ℕ
index_of_crlf [] = none
index_of_crlf (a ∷ []) = none
index_of_crlf (a ∷ b ∷ rest) =
    if a == 13 && b == 10
    then some 0
    else elim (index_of_crlf (b ∷ rest)) [ none ↦ none | some i ↦ some (suc i) ]

-- `buffer_.find("\r\n", from)`
unfoldable pub find_crlf : Bytes → ℕ → Option ℕ
unfolding index_of_crlf
find_crlf buf from = elim (index_of_crlf (drop from buf)) [ none ↦ none | some i ↦ some (from + i) ]

pub data ParseResult : Type 0 where
  complete : List Bytes → ParseResult
  incomplete protocol_error : ParseResult

-- One argument and the position behind it, or the early return.
pub data Bulk : Type 0 where
  arg : Bytes → ℕ → Bulk
  stop : ParseResult → Bulk

-- The end of a round: the bytes of the argument and the "\r\n" behind them.
unfoldable pub bulk_body : Bytes → ℕ → ℕ → Bulk
bulk_body buf pos str_len =
    let remaining = length buf - pos in
    if ltb remaining str_len || ltb (remaining - str_len) 2
    then stop incomplete
    else if not (get_or buf (pos + str_len) 0 == 13) || not (get_or buf (pos + str_len + 1) 0 == 10)
    then stop protocol_error
    else arg (take str_len (drop pos buf)) (pos + str_len + 2)

-- One round of the loop of `try_parse_command`.
unfoldable pub parse_bulk : Bytes → ℕ → Bulk
unfolding find_crlf parse_length bulk_body
parse_bulk buf pos =
    if leb (length buf) pos
    then stop incomplete
    else if not (get_or buf pos 0 == b'$')
    then stop protocol_error
    else elim (find_crlf buf (pos + 1)) [
      | none ↦ stop incomplete
      | some len_end ↦ elim (parse_length buf (pos + 1) len_end) [
        | none ↦ stop protocol_error
        | some str_len ↦ bulk_body buf (len_end + 2) str_len
      ]
    ]

-- What the loop returns: the arguments and the position behind the last, or the early return.
pub data Bulks : Type 0 where
  args : List Bytes → ℕ → Bulks
  stopped : ParseResult → Bulks

unfoldable pub parse_bulks : ℕ → Bytes → ℕ → List Bytes → Bulks
unfolding parse_bulk
parse_bulks zero buf pos command = args command pos
parse_bulks (suc count) buf pos command = elim (parse_bulk buf pos) [
  | arg s next ↦ parse_bulks count buf next (command ++ s ∷ [])
  | stop r ↦ stopped r
]

-- The result, what is left in the buffer, and the bytes that `raw` is assigned.
pub record Parsed : Type 0 where
  pub result : ParseResult
  pub buffer : Bytes
  pub raw : Bytes

unfoldable pub finish : Bytes → Bulks → Parsed
finish buf (args command pos) = record {
  result = complete command;
  buffer = drop pos buf;
  raw = take pos buf;
}
finish buf (stopped r) = record { result = r; buffer = buf; raw = [] }

abbrev early : Bytes → ParseResult → Parsed
early buf r = record { result = r; buffer = buf; raw = [] }

unfoldable pub try_parse_command : Bytes → Parsed
unfolding parse_bulks find_crlf parse_length finish
try_parse_command buf =
    if length buf == 0
    then early buf incomplete
    else if not (get_or buf 0 0 == b'*')
    then early buf protocol_error
    else elim (find_crlf buf 1) [
      | none ↦ early buf incomplete
      | some header_end ↦ elim (parse_length buf 1 header_end) [
        | none ↦ early buf protocol_error
        | some count ↦ finish buf (parse_bulks count buf (header_end + 2) [])
      ]
    ]

unfoldable pub feed : Bytes → Bytes → Bytes
feed buf bytes = buf ++ bytes
