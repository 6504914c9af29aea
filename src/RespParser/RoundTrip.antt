-- ===== src/RespParser/RoundTrip.antt =====
-- A command that `reply::command` wrote is parsed back, and what follows it stays in the buffer.
use epochkv.Prelude.{
  ℕ, zero, suc, ◌+◌, ◌-◌, ◌*◌, ◌/◌, ◌%◌, ◌^◌, ◌<◌, ◌≡◌, refl, ap, ◌∙◌, inl, inr, Bool-cases, List,
  [], ◌∷◌, ◌++◌, append_assoc, append-nil, false, some, Bytes, All, arith, ◌==◌, ltb, leb, get_or,
  length, length-append,
}
use epochkv.Prelude.Decimal.{
  to_string_ℕ, AreDigits, to_string_ℕ-AreDigits, digits_loop, digits_loop_read,
}
use epochkv.Prelude.Slices.{get_or-append, take-length_append, drop-length_append}
use epochkv.Reply.{bulk_string, bulk_strings, command}
use epochkv.RespParser.{
  size_max, parse_digits, parse_length, index_of_crlf, find_crlf, complete, arg, bulk_body,
  parse_bulk, args, parse_bulks, finish, try_parse_command,
}

index_of_crlf-digits :
    (ds rest : Bytes) → AreDigits ds → index_of_crlf (ds ++ 13 ∷ 10 ∷ rest) ≡ some (length ds)
unfolding index_of_crlf
index_of_crlf-digits [] rest h = refl
index_of_crlf-digits (a ∷ []) rest h = ground arith
index_of_crlf-digits (a ∷ b ∷ ds) rest h = ground (arith, index_of_crlf-digits (b ∷ ds) rest h.1)

parse_digits_step :
    (v d : ℕ) (cs : Bytes)
    → d < 10
    → v * 10 + d < 2 ^ 64
    → parse_digits v ((48 + d) ∷ cs) ≡ parse_digits (v * 10 + d) cs
unfolding parse_digits
parse_digits_step v d cs small fits =
    let e : 48 + d - 48 ≡ d = omega arith in
    let low : ltb (48 + d) 48 ≡ false = ground arith in
    let high : ltb 57 (48 + d) ≡ false = ground arith in
    let room : ltb ((size_max - d) / 10) v ≡ false = ground arith in rw (low, high, e, room)

parse_digits-to_string_ℕ : (n : ℕ) → n < 2 ^ 64 → parse_digits 0 (to_string_ℕ n) ≡ some n
unfolding to_string_ℕ
parse_digits-to_string_ℕ n h =
    digits_loop_read parse_digits (2 ^ 64) parse_digits_step (suc n) n [] (omega arith) h
    ∙ unfold parse_digits in refl

digits_nonempty : (fuel n : ℕ) (acc : Bytes) → 0 < length acc → 0 < length (digits_loop fuel n acc)
unfolding digits_loop
digits_nonempty zero n acc h = h
digits_nonempty (suc fuel) n acc h = elim (Bool-cases (n / 10 == 0)) [
  | inl last ↦ rw last (omega arith)
  | inr more ↦ rw more (digits_nonempty fuel (n / 10) ((48 + n % 10) ∷ acc) (omega arith))
]

to_string_ℕ_pos : (n : ℕ) → 0 < length (to_string_ℕ n)
unfolding to_string_ℕ digits_loop
to_string_ℕ_pos n = elim (Bool-cases (n / 10 == 0)) [
  | inl last ↦ rw last (omega arith)
  | inr more ↦ rw more (digits_nonempty n (n / 10) ((48 + n % 10) ∷ []) (omega arith))
]

-- A length line, at the position behind its first byte.
module _ (pre rest : Bytes) (n : ℕ) (small : n < 2 ^ 64) where
  abbrev line : Bytes
  line = pre ++ (to_string_ℕ n ++ (13 ∷ 10 ∷ rest))

  find_crlf-line : find_crlf line (length pre) ≡ some (length pre + length (to_string_ℕ n))
  unfolding find_crlf
  find_crlf-line =
      rw (drop-length_append pre, index_of_crlf-digits _ rest (to_string_ℕ-AreDigits n), find_crlf)

  parse_length-line : parse_length line (length pre) (length pre + length (to_string_ℕ n)) ≡ some n
  unfolding parse_length
  parse_length-line =
      let some_digits : leb (length pre + length (to_string_ℕ n)) (length pre) ≡ false =
        ground (arith, to_string_ℕ_pos n) in
      let span : length pre + length (to_string_ℕ n) - length pre ≡ length (to_string_ℕ n) =
        omega arith in
      rw (some_digits, span, drop-length_append pre, take-length_append (to_string_ℕ n))
        (parse_digits-to_string_ℕ n small)

-- The bytes of an argument and the end of its line.
bulk_body-append :
    (pre s rest : Bytes)
    → bulk_body (pre ++ (s ++ (13 ∷ 10 ∷ rest))) (length pre) (length s)
      ≡ arg s (length pre + length s + 2)
unfolding bulk_body
bulk_body-append pre s rest =
    let buf = pre ++ (s ++ (13 ∷ 10 ∷ rest)) in
    let left : length buf - length pre ≡ length s + 2 + length rest =
      rw (length-append pre, length-append s) (omega arith) in
    let enough : ltb (length s + 2 + length rest) (length s) ≡ false = ground arith in
    let ended : ltb (length s + 2 + length rest - length s) 2 ≡ false = ground arith in
    let cr : get_or buf (length pre + length s) 0 ≡ 13 =
      rw (get_or-append pre)
        (let e : length s ≡ length s + 0 = omega arith in rw e (get_or-append s _ 0 0)) in
    let at : length pre + length s + 1 ≡ length pre + (length s + 1) = omega arith in
    let lf : get_or buf (length pre + length s + 1) 0 ≡ 10 =
      rw (at, get_or-append pre) (get_or-append s _ 1 0) in
    rw (left, enough, ended, cr, lf, drop-length_append pre, take-length_append s)

-- A bulk string with what follows it.
abbrev bulk : Bytes → Bytes → Bytes
bulk s rest = b'$' ∷ (to_string_ℕ (length s) ++ (13 ∷ 10 ∷ (s ++ (13 ∷ 10 ∷ rest))))

module _ (pre s rest : Bytes) (small : length s < 2 ^ 64) where
  abbrev buffer : Bytes
  buffer = pre ++ bulk s rest

  -- The buffer, split behind the '$' and behind the length line.
  abbrev opened : Bytes
  opened = pre ++ (b'$' ∷ [])

  abbrev measured : Bytes
  measured = opened ++ (to_string_ℕ (length s) ++ (13 ∷ 10 ∷ []))

  split_opened : opened ++ (to_string_ℕ (length s) ++ (13 ∷ 10 ∷ (s ++ (13 ∷ 10 ∷ rest)))) ≡ buffer
  split_opened = append_assoc pre (b'$' ∷ []) _

  split_measured : measured ++ (s ++ (13 ∷ 10 ∷ rest)) ≡ buffer
  split_measured =
      append_assoc opened (to_string_ℕ (length s) ++ (13 ∷ 10 ∷ [])) _
      ∙ ap (λ (t : Bytes). opened ++ t) (append_assoc (to_string_ℕ (length s)) (13 ∷ 10 ∷ []) _)
      ∙ split_opened

  length-opened : length opened ≡ length pre + 1
  length-opened = length-append pre (b'$' ∷ [])

  length-measured : length measured ≡ length pre + 1 + length (to_string_ℕ (length s)) + 2
  length-measured =
      rw (length-append opened, length-opened, length-append (to_string_ℕ (length s))) (omega arith)

  parse_bulk-bulk :
      parse_bulk buffer (length pre)
      ≡ arg s (length pre + 1 + length (to_string_ℕ (length s)) + 2 + length s + 2)
  unfolding parse_bulk
  parse_bulk-bulk =
      let more : leb (length buffer) (length pre) ≡ false = rw (length-append pre) (ground arith) in
      let dollar : get_or buffer (length pre) 0 ≡ b'$' =
        (let e : length pre ≡ length pre + 0 = omega arith in rw e (get_or-append pre _ 0 0)) in
      let found =
        rw (split_opened, length-opened) at
          (find_crlf-line opened (s ++ (13 ∷ 10 ∷ rest)) (length s) small) in
      let read =
        rw (split_opened, length-opened) at
          (parse_length-line opened (s ++ (13 ∷ 10 ∷ rest)) (length s) small) in
      let body = rw (split_measured, length-measured) at (bulk_body-append measured s rest) in
      rw (more, dollar, found, read) body

abbrev encoded : List Bytes → Bytes → Bytes
encoded [] rest = rest
encoded (s ∷ ss) rest = bulk s (encoded ss rest)

bulk_string-append : (out s rest : Bytes) → bulk_string out s ++ rest ≡ out ++ bulk s rest
unfolding bulk_string
bulk_string-append out s rest = simp append_assoc

bulk_strings-encoded :
    (out : Bytes) (argv : List Bytes) (rest : Bytes)
    → bulk_strings out argv ++ rest ≡ out ++ encoded argv rest
unfolding bulk_strings
bulk_strings-encoded out [] rest = refl
bulk_strings-encoded out (s ∷ ss) rest =
    bulk_strings-encoded (bulk_string out s) ss rest ∙ bulk_string-append out s (encoded ss rest)

-- Every argument is short enough for its length to be a `size_t`.
abbrev pub AreShort : List Bytes → Type 0
AreShort argv = All (λ s. length s < 2 ^ 64) argv

parse_bulks-encoded :
    (argv : List Bytes) (pre rest : Bytes) (acc : List Bytes)
    → AreShort argv
    → parse_bulks (length argv) (pre ++ encoded argv rest) (length pre) acc
      ≡ args (acc ++ argv) (length (pre ++ encoded argv rest) - length rest)
unfolding parse_bulks
parse_bulks-encoded [] pre rest acc h =
    let e : length (pre ++ rest) - length rest ≡ length pre =
      rw (length-append pre) (omega arith) in
    rw (e, append-nil)
parse_bulks-encoded (s ∷ ss) pre rest acc h =
    let front = measured pre s (encoded ss rest) h.0 ++ (s ++ (13 ∷ 10 ∷ [])) in
    let same : front ++ encoded ss rest ≡ pre ++ bulk s (encoded ss rest) =
      append_assoc (measured pre s (encoded ss rest) h.0) (s ++ (13 ∷ 10 ∷ [])) _
      ∙ ap (λ (t : Bytes). measured pre s (encoded ss rest) h.0 ++ t)
          (append_assoc s (13 ∷ 10 ∷ []) _)
      ∙ split_measured pre s (encoded ss rest) h.0 in
    let size : length front ≡ length pre + 1 + length (to_string_ℕ (length s)) + 2 + length s + 2 =
      rw
        (
          length-append (measured pre s (encoded ss rest) h.0),
          length-measured pre s (encoded ss rest) h.0,
          length-append s,
        )
        (omega arith) in
    rw (parse_bulk-bulk pre s (encoded ss rest) h.0, parse_bulks)
      (rw (same, size, append_assoc acc) at (parse_bulks-encoded ss front rest (acc ++ s ∷ []) h.1))

-- The header line and what it announces.
module _ (argv : List Bytes) (rest : Bytes) where
  abbrev header : Bytes
  header = b'*' ∷ (to_string_ℕ (length argv) ++ (13 ∷ 10 ∷ []))

  command-header : command [] argv ++ rest ≡ header ++ encoded argv rest
  unfolding command
  command-header = bulk_strings-encoded header argv rest

  command-line :
      command [] argv ++ rest ≡ b'*' ∷ (to_string_ℕ (length argv) ++ (13 ∷ 10 ∷ encoded argv rest))
  command-line =
      command-header
      ∙ ap (λ (t : Bytes). b'*' ∷ t) (append_assoc (to_string_ℕ (length argv)) (13 ∷ 10 ∷ []) _)

  length-header : length header ≡ 1 + length (to_string_ℕ (length argv)) + 2
  length-header = rw (length-append (to_string_ℕ (length argv))) (omega arith)

  finish-args :
      finish (command [] argv ++ rest) (args argv (length (command [] argv ++ rest) - length rest))
      ≡ record { result = complete argv; buffer = rest; raw = command [] argv }
  unfolding finish
  finish-args =
      let size : length (command [] argv ++ rest) - length rest ≡ length (command [] argv) =
        rw (length-append (command [] argv)) (omega arith) in
      rw (size, drop-length_append (command [] argv), take-length_append (command [] argv))

parse_header :
    (buf : Bytes) (header_end count : ℕ)
    → (length buf == 0) ≡ false
    → get_or buf 0 0 ≡ b'*'
    → find_crlf buf 1 ≡ some header_end
    → parse_length buf 1 header_end ≡ some count
    → try_parse_command buf ≡ finish buf (parse_bulks count buf (header_end + 2) [])
unfolding try_parse_command
parse_header buf header_end count some_bytes front found read =
    rw (some_bytes, front, found, read, try_parse_command)

-- A command that the encoder wrote at the front of the buffer, of fewer than 2 ^ 64 arguments each
-- shorter than 2 ^ 64 bytes, is read back argument for argument, its exact bytes are handed out, and
-- what follows stays in the buffer.
pub try_parse_command-command :
    (argv : List Bytes) (rest : Bytes)
    → length argv < 2 ^ 64
    → AreShort argv
    → try_parse_command (command [] argv ++ rest)
      ≡ record { result = complete argv; buffer = rest; raw = command [] argv }
try_parse_command-command argv rest few short =
    let whole = command-line argv rest in
    let buf = command [] argv ++ rest in
    let front : get_or buf 0 0 ≡ b'*' = rw whole in
    let some_bytes : (length buf == 0) ≡ false = rw whole (ground arith) in
    let found =
      rw (← whole) at (find_crlf-line (b'*' ∷ []) (encoded argv rest) (length argv) few) in
    let read =
      rw (← whole) at (parse_length-line (b'*' ∷ []) (encoded argv rest) (length argv) few) in
    let bulks =
      rw (length-header argv rest, ← command-header argv rest) at
        (parse_bulks-encoded argv (header argv rest) rest [] short) in
    let size : length (header argv rest ++ encoded argv rest) ≡ length buf =
      rw (command-header argv rest) in
    parse_header buf _ (length argv) some_bytes front found read
    ∙ ap (finish buf) (bulks ∙ ap (λ n. args argv (n - length rest)) size)
    ∙ finish-args argv rest
