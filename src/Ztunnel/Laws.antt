-- ===== src/Ztunnel/Laws.antt =====
-- internal/ztunnel/parser.go: lines in the CRI format are read field by field.
use Prim.Native.Char.{code}
use Prim.Native.String.{String, [], ◌∷◌, ◌++◌}
use text.Mathlib.TextLemmas.{nil-append, cons-append}
use network_enforcer.Common.{
  ◌≡◌, ◌≢◌, refl, inl, inr, ◌⊎◌, Option, none, some, true, false, arith, string_eq, nat_beq,
  eq-false, nat_eq,
}
use network_enforcer.Common.Result.{Result, failed, ok}
use network_enforcer.Common.Text.{cut, contains_char}
use network_enforcer.Common.Text.Cut.{cut-append}
use network_enforcer.Ztunnel.{
  Event, ZtunnelRecord, ParseError, invalid_json, after_last_colon, all_digits, extract_port,
  event_of_record, parse_decoded, parse_tag, parse_stream, parse,
}

after_last_colon-digits : (port : String) → all_digits port ≡ true → after_last_colon port ≡ none
unfolding after_last_colon all_digits
after_last_colon-digits [] h = refl
after_last_colon-digits (c ∷ s) h =
    let other : nat_beq (code c) b':' ≡ false = ground arith in
    let later : all_digits s ≡ true = ground arith in
    rw (after_last_colon-digits s later, other) refl

after_last_colon-append :
    (host port : String)
    → all_digits port ≡ true
    → after_last_colon (host ++ (":" ∷ port)) ≡ some port
unfolding after_last_colon
after_last_colon-append [] port h =
    rw (nil-append, after_last_colon, after_last_colon-digits port h) refl
after_last_colon-append (c ∷ host) port h =
    rw (cons-append, after_last_colon, after_last_colon-append host port h) refl

-- The port of an address in the form `host:port`, whose port is not empty and has only digits, is
-- read whatever the host.
pub extract_port-append :
    (host port : String) → all_digits port ≡ true → extract_port (host ++ (":" ∷ port)) ≡ port
unfolding extract_port
extract_port-append host port h = rw (after_last_colon-append host port h, h) refl

-- The time, the stream and the tag of a line, and its body.
abbrev pub line : String → String → String → String → String
line timestamp stream tag body = timestamp ++ (" " ∷ (stream ++ (" " ∷ (tag ++ (" " ∷ body)))))

abbrev pub IsStream : String → Type 0
IsStream stream = (stream ≡ "stdout") ⊎ (stream ≡ "stderr")

stream_lem :
    (decode : String → Option ZtunnelRecord) (timestamp stream rest : String)
    → IsStream stream
    → parse_stream decode timestamp (some (stream, rest))
      ≡ parse_tag decode timestamp (cut rest " ")
stream_lem decode timestamp stream rest (inl e) = rw e refl
stream_lem decode timestamp stream rest (inr e) = rw e refl

contains_char-stream : (stream : String) → IsStream stream → contains_char stream " " ≡ false
unfolding contains_char
contains_char-stream stream (inl e) = rw e refl
contains_char-stream stream (inr e) = rw e refl

-- what becomes of the decoded body
abbrev pub outcome : String → Option ZtunnelRecord → Result ParseError (Option Event)
outcome timestamp none = failed invalid_json
outcome timestamp (some rec) = ok (event_of_record timestamp rec)

parse_decoded_lem :
    (decode : String → Option ZtunnelRecord) (timestamp : String) (decoded : Option ZtunnelRecord)
    → parse_decoded decode timestamp decoded ≡ outcome timestamp decoded
parse_decoded_lem decode timestamp none = refl
parse_decoded_lem decode timestamp (some rec) = refl

-- A line with a time, the stream stdout or stderr, and a tag, the time and the tag without spaces
-- and the time not empty, is read in full: its event is that of the decoded body, under the line's
-- time, and it is an error exactly when the body does not decode.
pub parse-line :
    (decode : String → Option ZtunnelRecord) (timestamp stream tag body : String)
    → timestamp ≢ ""
    → contains_char timestamp " " ≡ false
    → IsStream stream
    → contains_char tag " " ≡ false
    → parse decode (line timestamp stream tag body) ≡ outcome timestamp (decode body)
unfolding parse
parse-line decode timestamp stream tag body n t s g =
    rw
      (
        cut-append timestamp (stream ++ (" " ∷ (tag ++ (" " ∷ body)))) " " t,
        eq-false timestamp "" n,
        cut-append stream (tag ++ (" " ∷ body)) " " (contains_char-stream stream s),
        stream_lem decode timestamp stream (tag ++ (" " ∷ body)) s,
        cut-append tag body " " g,
      )
      (parse_decoded_lem decode timestamp (decode body))
