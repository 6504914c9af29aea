-- ===== src/RespParser/Incremental.antt =====
-- More input never changes what the parser has already found: a complete command and a protocol
-- error stay what they are, wherever the network splits the bytes.
use epochkv.Prelude.{
  ℕ, zero, suc, ◌+◌, ◌-◌, ◌≤◌, ◌<◌, ◌≡◌, ◌≢◌, refl, sym, ◌∙◌, inl, inr, ◌⊎◌, List, [], ◌∷◌, ◌++◌,
  some, true, false, ◌||◌, Bytes, arith, ◌==◌, ltb, leb, drop, get_or, length, length-append,
  length-drop, Option-cases, Bool-cases,
}
use epochkv.Prelude.Slices.{drop-append_le, take-append_le}
use epochkv.RespParser.{
  parse_length, index_of_crlf, find_crlf, ParseResult, incomplete, Bulk, arg, stop, bulk_body,
  parse_bulk, Bulks, args, stopped, parse_bulks, Parsed, finish, try_parse_command, feed,
}

Bulk-cases :
    (b : Bulk) → ((s : Bytes) × (next : ℕ) × (b ≡ arg s next)) ⊎ ((r : ParseResult) × (b ≡ stop r))
Bulk-cases (arg s next) = inl (s, next, refl)
Bulk-cases (stop r) = inr (r, refl)

arg-ne-stop : {s : Bytes} {next : ℕ} {r : ParseResult} → arg s next ≢ stop r
arg-ne-stop e = cc

get_or-append_left : (xs ys : Bytes) (i : ℕ) → i < length xs → get_or (xs ++ ys) i 0 ≡ get_or xs i 0
get_or-append_left [] ys i h = elim h [ ]
get_or-append_left (x ∷ xs) ys zero h = refl
get_or-append_left (x ∷ xs) ys (suc i) h = get_or-append_left xs ys i (omega arith)

index_of_crlf-append :
    (s t : Bytes) (i : ℕ)
    → index_of_crlf s ≡ some i
    → (index_of_crlf (s ++ t) ≡ some i) × (i + 2 ≤ length s)
unfolding index_of_crlf
index_of_crlf-append [] t i h = cc
index_of_crlf-append (a ∷ []) t i h = cc
index_of_crlf-append (a ∷ b ∷ s) t zero h = ground (arith, index_of_crlf-append (b ∷ s) t 0)
index_of_crlf-append (a ∷ b ∷ s) t (suc i) h = ground (arith, index_of_crlf-append (b ∷ s) t i)

find_crlf-append :
    (buf more : Bytes) (from e : ℕ)
    → from ≤ length buf
    → find_crlf buf from ≡ some e
    → (find_crlf (buf ++ more) from ≡ some e) × (from ≤ e) × (e + 2 ≤ length buf)
unfolding find_crlf
find_crlf-append buf more from e within h = elim (Option-cases (index_of_crlf (drop from buf))) [
  | inl gone ↦ absurd (ground (arith, gone))
  | inr (i, there) ↦
      let (longer, room) = index_of_crlf-append (drop from buf) more i there in
      let at : from + i ≡ e = ground (arith, there) in
      let size = length-drop from buf in
      (rw (drop-append_le from buf more within, longer, at, find_crlf), omega arith, omega arith)
]

parse_length-append :
    (buf more : Bytes) (begin end : ℕ)
    → begin ≤ end
    → end ≤ length buf
    → parse_length (buf ++ more) begin end ≡ parse_length buf begin end
unfolding parse_length
parse_length-append buf more begin end order within =
    let room : end - begin ≤ length (drop begin buf) = rw length-drop (omega arith) in
    rw (
      drop-append_le begin buf more (omega arith),
      take-append_le (end - begin) (drop begin buf) more room,
    )

bulk_body-append :
    (buf more : Bytes) (pos n : ℕ)
    → pos ≤ length buf
    → bulk_body buf pos n ≢ stop incomplete
    → bulk_body (buf ++ more) pos n ≡ bulk_body buf pos n
unfolding bulk_body
bulk_body-append buf more pos n within known =
    elim (Bool-cases (ltb (length buf - pos) n || ltb (length buf - pos - n) 2)) [
      | inl short ↦ absurd (known (rw short))
      | inr enough ↦
          let fits : n + 2 ≤ length buf - pos = ground arith in
          let longer : length (buf ++ more) ≡ length buf + length more = length-append buf more in
          let still : (ltb (length buf + length more - pos) n
                || ltb (length buf + length more - pos - n) 2)
              ≡ false =
            ground arith in
          let size : length (drop pos buf) ≡ length buf - pos = length-drop pos buf in
          rw (
            longer,
            enough,
            still,
            get_or-append_left buf more (pos + n) (omega arith),
            get_or-append_left buf more (pos + n + 1) (omega arith),
            drop-append_le pos buf more within,
            take-append_le n (drop pos buf) more (omega arith),
          )
    ]

-- The steps of a round, with the parts that they compute named.
module _ (buf more : Bytes) (pos : ℕ) (within : pos < length buf)
    (known : parse_bulk buf pos ≢ stop incomplete) where
  tests_kept : (leb (length buf) pos ≡ false) × (leb (length (buf ++ more)) pos ≡ false)
  tests_kept = (ground arith, rw (length-append buf more) (ground arith))

  same_byte : get_or (buf ++ more) pos 0 ≡ get_or buf pos 0
  same_byte = get_or-append_left buf more pos within

  no_dollar : (get_or buf pos 0 == b'$') ≡ false → parse_bulk (buf ++ more) pos ≡ parse_bulk buf pos
  unfolding parse_bulk
  no_dollar h = rw (tests_kept.0, tests_kept.1, same_byte, h)

  with_line :
      (e : ℕ)
      → (get_or buf pos 0 == b'$') ≡ true
      → find_crlf buf (pos + 1) ≡ some e
      → parse_bulk (buf ++ more) pos ≡ parse_bulk buf pos
  unfolding parse_bulk
  with_line e dollar found =
      let (found', order, room) = find_crlf-append buf more (pos + 1) e (omega arith) found in
      let same = parse_length-append buf more (pos + 1) e order (omega arith) in
      elim (Option-cases (parse_length buf (pos + 1) e)) [
        | inl bad ↦ rw (tests_kept.0, tests_kept.1, same_byte, dollar, found, found', same, bad)
        | inr (n, good) ↦
            let open_body : parse_bulk buf pos ≡ bulk_body buf (e + 2) n =
              rw (tests_kept.0, dollar, found, good, parse_bulk) in
            rw (tests_kept.0, tests_kept.1, same_byte, dollar, found, found', same, good)
              (bulk_body-append buf more (e + 2) n room (λ h. known (open_body ∙ h)))
      ]

  parse_bulk-append_within : parse_bulk (buf ++ more) pos ≡ parse_bulk buf pos
  unfolding parse_bulk
  parse_bulk-append_within = elim (Bool-cases (get_or buf pos 0 == b'$')) [
    | inr other ↦ no_dollar other
    | inl dollar ↦ elim (Option-cases (find_crlf buf (pos + 1))) [
      | inl gone ↦ absurd (known (rw (tests_kept.0, dollar, gone, parse_bulk)))
      | inr (e, found) ↦ with_line e dollar found
    ]
  ]

parse_bulk-append :
    (buf more : Bytes) (pos : ℕ)
    → parse_bulk buf pos ≢ stop incomplete
    → parse_bulk (buf ++ more) pos ≡ parse_bulk buf pos
unfolding parse_bulk
parse_bulk-append buf more pos known = elim (Bool-cases (leb (length buf) pos)) [
  | inl past ↦ absurd (known (rw past))
  | inr within ↦ parse_bulk-append_within buf more pos (ground arith) known
]

-- Where a round ends, inside the buffer.
parse_bulk-le :
    (buf : Bytes) (pos : ℕ) (s : Bytes) (next : ℕ)
    → parse_bulk buf pos ≡ arg s next
    → next ≤ length buf
unfolding parse_bulk
parse_bulk-le buf pos s next h = ground arith

parse_bulks-append :
    (count : ℕ) (buf more : Bytes) (pos : ℕ) (acc : List Bytes)
    → parse_bulks count buf pos acc ≢ stopped incomplete
    → parse_bulks count (buf ++ more) pos acc ≡ parse_bulks count buf pos acc
unfolding parse_bulks
parse_bulks-append zero buf more pos acc known = refl
parse_bulks-append (suc count) buf more pos acc known = elim (Bulk-cases (parse_bulk buf pos)) [
  | inl (s, next, h) ↦
      let same = parse_bulk-append buf more pos (λ e. arg-ne-stop (sym h ∙ e)) in
      let rest : parse_bulks (suc count) buf pos acc ≡ parse_bulks count buf next (acc ++ s ∷ []) =
        rw (h, parse_bulks) in
      rw (same, h, parse_bulks)
        (parse_bulks-append count buf more next (acc ++ s ∷ []) (λ e. known (rest ∙ e)))
  | inr (r, h) ↦
      let same = parse_bulk-append buf more pos (λ e. known (rw (e, parse_bulks))) in
      rw (same, h, parse_bulks)
]

parse_bulks-le :
    (count : ℕ) (buf : Bytes) (pos : ℕ) (acc command : List Bytes) (next : ℕ)
    → pos ≤ length buf
    → parse_bulks count buf pos acc ≡ args command next
    → next ≤ length buf
unfolding parse_bulks
parse_bulks-le zero buf pos acc command next within h = ground arith
parse_bulks-le (suc count) buf pos acc command next within h =
    elim (Bulk-cases (parse_bulk buf pos)) [
      | inl (s, after, e) ↦
          parse_bulks-le count buf after (acc ++ s ∷ []) command next
            (parse_bulk-le buf pos s after e) (rw (e, parse_bulks) at h)
      | inr (r, e) ↦ ground (arith, e)
    ]

-- The loop that a header line leads to, or the reason that there is none.
header_end-append :
    (buf more : Bytes) (e : ℕ)
    → 1 ≤ length buf
    → find_crlf buf 1 ≡ some e
    → (find_crlf (buf ++ more) 1 ≡ some e)
      × (parse_length (buf ++ more) 1 e ≡ parse_length buf 1 e)
      × (e + 2 ≤ length buf)
header_end-append buf more e room found =
    let (found', order, within) = find_crlf-append buf more 1 e room found in
    (found', parse_length-append buf more 1 e order (omega arith), within)

-- What more input leaves alone: the result and the raw bytes stay, and the input is left over.
record Extends (before after : Parsed) (more : Bytes) : Type 0 where
  result : after.result ≡ before.result
  raw : after.raw ≡ before.raw
  buffer : after.buffer ≡ before.buffer ++ more

finish-Extends :
    (buf more : Bytes) (r : Bulks)
    → ((command : List Bytes) (next : ℕ) → r ≡ args command next → next ≤ length buf)
    → Extends (finish buf r) (finish (buf ++ more) r) more
unfolding finish
finish-Extends buf more (args command next) within = record {
  result = refl;
  raw = take-append_le next buf more (within command next refl);
  buffer = drop-append_le next buf more (within command next refl);
}
finish-Extends buf more (stopped r) within = record { result = refl; raw = refl; buffer = refl }

module _ (buf more : Bytes) (room : 1 ≤ length buf) where
  abbrev longer : Bytes
  longer = buf ++ more

  nonempty : ((length buf == 0) ≡ false) × ((length longer == 0) ≡ false)
  nonempty = (ground arith, rw (length-append buf more) (ground arith))

  same_star : get_or longer 0 0 ≡ get_or buf 0 0
  same_star = get_or-append_left buf more 0 room

  module _ (known : (try_parse_command buf).result ≢ incomplete) where
    with_header :
        (e : ℕ)
        → (get_or buf 0 0 == b'*') ≡ true
        → find_crlf buf 1 ≡ some e
        → Extends (try_parse_command buf) (try_parse_command longer) more
    unfolding try_parse_command
    with_header e star found =
        let (found', same, within) = header_end-append buf more e room found in
        elim (Option-cases (parse_length buf 1 e)) [
          | inl bad ↦
              rw
                (
                  nonempty.0, nonempty.1, same_star, star, found, found', same, bad,
                  try_parse_command,
                )
                (record { result = refl; raw = refl; buffer = refl })
          | inr (count, good) ↦
              let open_run : try_parse_command buf ≡ finish buf (parse_bulks count buf (e + 2) []) =
                rw (nonempty.0, star, found, good, try_parse_command) in
              let kept =
                parse_bulks-append count buf more (e + 2) []
                  (λ h. known (rw open_run (rw h (unfold finish in refl)))) in
              rw
                (
                  nonempty.0, nonempty.1, same_star, star, found, found', same, good, kept,
                  try_parse_command,
                )
                (finish-Extends buf more (parse_bulks count buf (e + 2) [])
                  (λ command next. parse_bulks-le count buf (e + 2) [] command next within))
        ]

    try_parse_command-Extends : Extends (try_parse_command buf) (try_parse_command longer) more
    unfolding try_parse_command
    try_parse_command-Extends = elim (Bool-cases (get_or buf 0 0 == b'*')) [
      | inr other ↦
          rw (nonempty.0, nonempty.1, same_star, other, try_parse_command)
            (record { result = refl; raw = refl; buffer = refl })
      | inl star ↦ elim (Option-cases (find_crlf buf 1)) [
        | inl gone ↦ absurd (known (rw (nonempty.0, star, gone, try_parse_command)))
        | inr (e, found) ↦ with_header e star found
      ]
    ]

nonempty_of_known : (buf : Bytes) → (try_parse_command buf).result ≢ incomplete → 1 ≤ length buf
unfolding try_parse_command
nonempty_of_known [] known = absurd (known refl)
nonempty_of_known (b ∷ bs) known = omega arith

-- Once the parser has found a complete command or a protocol error, feeding it more bytes changes
-- neither the result nor the raw bytes, and the new bytes are left over behind the old rest. So it
-- does not matter how the network splits a stream.
pub try_parse_command-feed :
    (buf more : Bytes)
    → (try_parse_command buf).result ≢ incomplete
    → ((try_parse_command (feed buf more)).result ≡ (try_parse_command buf).result)
      × ((try_parse_command (feed buf more)).raw ≡ (try_parse_command buf).raw)
      × ((try_parse_command (feed buf more)).buffer ≡ feed (try_parse_command buf).buffer more)
unfolding feed
try_parse_command-feed buf more known =
    let e = try_parse_command-Extends buf more (nonempty_of_known buf known) known in
    (e.result, e.raw, e.buffer)
