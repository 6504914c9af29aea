-- ===== src/Reply.antt =====
-- src/reply.cpp: the RESP encodings. Each function appends to the output buffer `out`.
use epochkv.Prelude.{ℕ, List, [], ◌∷◌, ◌++◌, Bytes, str, length}
use epochkv.Prelude.Int.{ℤ}
use epochkv.Prelude.Decimal.{to_string, to_string_ℕ}

abbrev pub crlf : Bytes
crlf = 13 ∷ 10 ∷ []

unfoldable pub simple_string : Bytes → Bytes → Bytes
simple_string out s = out ++ (b'+' ∷ (s ++ crlf))

unfoldable pub error : Bytes → Bytes → Bytes
error out msg = out ++ (b'-' ∷ (msg ++ crlf))

unfoldable pub integer : Bytes → ℤ → Bytes
integer out n = out ++ (b':' ∷ (to_string n ++ crlf))

unfoldable pub bulk_string : Bytes → Bytes → Bytes
bulk_string out s = out ++ (b'$' ∷ (to_string_ℕ (length s) ++ (crlf ++ (s ++ crlf))))

unfoldable pub null_bulk : Bytes → Bytes
null_bulk out = out ++ str "$-1\r\n"

unfoldable pub array_header : Bytes → ℕ → Bytes
array_header out n = out ++ (b'*' ∷ (to_string_ℕ n ++ crlf))

-- The loop of `command`.
unfoldable pub bulk_strings : Bytes → List Bytes → Bytes
unfolding bulk_string
bulk_strings out [] = out
bulk_strings out (arg ∷ args) = bulk_strings (bulk_string out arg) args

unfoldable pub command : Bytes → List Bytes → Bytes
unfolding bulk_strings
command out argv = bulk_strings (out ++ (b'*' ∷ (to_string_ℕ (length argv) ++ crlf))) argv
