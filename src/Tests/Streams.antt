-- ===== src/Tests/Streams.antt =====
-- src/resp_parser.cpp, src/reply.cpp and src/repl_backlog.cpp at short texts.
use epochkv.Prelude.{◌≡◌, ◌≢◌, refl, ◌+◌, ◌-◌, List, [], ◌∷◌, ◌++◌, Bytes, str, arith, drop}
use epochkv.Reply.{command, crlf}
use epochkv.RespParser.{try_parse_command, complete, incomplete, feed}
use epochkv.RespParser.RoundTrip.{try_parse_command-command}
use epochkv.RespParser.Incremental.{try_parse_command-feed}
use epochkv.Backlog.{ReplBacklog, append, contains, copy_from, start_offset}
use epochkv.Backlog.Window.{IsValid, window}
use epochkv.Backlog.Append.{newest, window-append}
use epochkv.Backlog.Copy.{copy_from-window}

crlf_bytes : crlf ≡ 13 ∷ 10 ∷ []
unfolding str
crlf_bytes = refl

abbrev get_foo : List Bytes
get_foo = str "GET" ∷ str "foo" ∷ []

try_parse_command-command_example :
    try_parse_command (command [] get_foo ++ str "*1")
    ≡ record { result = complete get_foo; buffer = str "*1"; raw = command [] get_foo }
unfolding str
try_parse_command-command_example =
    try_parse_command-command get_foo (str "*1") (omega arith) (omega arith, (omega arith, tt))

abbrev ready : Bytes
ready = command [] get_foo ++ str "*1"

ready_known : (try_parse_command ready).result ≢ incomplete
ready_known = λ e. absurd (ground (arith, try_parse_command-command_example, e))

try_parse_command-feed_example :
    ((try_parse_command (feed ready (str "\r\n"))).result ≡ (try_parse_command ready).result)
    × ((try_parse_command (feed ready (str "\r\n"))).raw ≡ (try_parse_command ready).raw)
    × ((try_parse_command (feed ready (str "\r\n"))).buffer
        ≡ feed (try_parse_command ready).buffer (str "\r\n"))
try_parse_command-feed_example = try_parse_command-feed ready (str "\r\n") ready_known

-- Four places, all written: the oldest byte is the one at place 1.
abbrev wrapped : ReplBacklog
wrapped = record { buf = 5 ∷ 2 ∷ 3 ∷ 4 ∷ []; write_pos = 1; histlen = 4; offset = 5 }

wrapped-IsValid : IsValid wrapped
wrapped-IsValid = record {
  room = omega arith;
  inside = omega arith;
  held = omega arith;
  counted = omega arith;
}

window-append_example :
    IsValid (append wrapped (6 ∷ 7 ∷ []))
    × ((append wrapped (6 ∷ 7 ∷ [])).offset ≡ wrapped.offset + 2)
    × (window (append wrapped (6 ∷ 7 ∷ [])) ≡ newest 4 (window wrapped ++ 6 ∷ 7 ∷ []))
window-append_example = window-append wrapped wrapped-IsValid (6 ∷ 7 ∷ [])

copy_from-window_example :
    copy_from wrapped 3 [] ≡ [] ++ drop (3 - start_offset wrapped) (window wrapped)
unfolding contains
copy_from-window_example = copy_from-window wrapped 3 [] wrapped-IsValid refl
