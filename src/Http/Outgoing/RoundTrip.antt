-- ===== src/Http/Outgoing/RoundTrip.antt =====
-- src/http/outgoing and src/http/incoming: a response that a writer has written, read by a parser.
use native.Mathlib.Nat.{add_comm}
use rikitiki.Base.Decimal.{decimal, decimal-IsDigits}
use rikitiki.Base.StringMap.{lookup, get_or_missing}
use rikitiki.Base.{
  suc, ◌+◌, ◌^◌, ◌<◌, true, false, List, [], ◌++◌, none, some, ◌≡◌, refl, sym, ap, subst, ◌∙◌,
  arith, Bytes, codes, equal, length, All, All-append, All-map, append_assoc, length-append,
}
use rikitiki.Http.Header.{Header, add, lookup-add}
use rikitiki.Http.Parsing.{headers, finished, known_size, size_max}
use rikitiki.Http.Parsing.Scan.{is_newline}
use rikitiki.Http.Parsing.Reader.{new_reader, returned, on_data}
use rikitiki.Http.Parsing.Reader.Fuel.{IsDone, on_data_loop-add}
use rikitiki.Http.Parsing.Reader.Line.{IsLine, crlf, at_line, full_line}
use rikitiki.Http.Incoming.{IMessage, new_message, message_data, on_buffered}
use rikitiki.Http.Incoming.Client.{message_data-IsDone}
use rikitiki.Http.Incoming.Steps.{
  IsSent, add_headers, loop_step, read_start, value-IsLine, length_name, encoding_name,
}
use rikitiki.Http.Outgoing.{Writer, ok, length_header}
use rikitiki.Http.Outgoing.Output.{
  respond, response_text, status_line, line_of, lines_of, all_of, respond-output,
}
use rikitiki.Http.Response.{set_startline, startline}
use rikitiki.Http.Response.StartLine.{IsReason, set_startline-startline}
use rikitiki.Http.Status.{HttpStatus, start_string}
use rikitiki.Http.Outgoing.Reading.{
  IsPlainHeader, digits-plain, length_header-IsSent, lookup-add_headers, read_on, read_line,
  read_lines, at_end, read_payload,
}

-- What a parser has made of a response.
abbrev pub received : HttpStatus → List Header → Bytes → IMessage HttpStatus
received s hs d = record {
  stream_state = finished;
  body_type = known_size;
  start = record s { managed = false };
  header_map = add length_name (decimal (length d)) (add_headers hs []);
  content = d;
  is_bad = false;
}

startline_text : (s : HttpStatus) → status_line s ≡ startline s ++ crlf
unfolding startline start_string
startline_text s = simp append_assoc

startline-IsLine :
    (s : HttpStatus)
    → IsReason s.name
    → All (λ c. is_newline c ≡ false) s.name
    → IsLine (startline s)
unfolding startline
startline-IsLine s reason line =
    let (number, text, _) = digits-plain (decimal s.status) (decimal-IsDigits s.status) in
    let version : IsLine (codes "HTTP/1.1 ") = ground arith in
    All-append _ (codes "HTTP/1.1 ") _ version (
      All-append _ (decimal s.status) _ (value-IsLine (decimal s.status) number text)
        ((omega arith, refl), value-IsLine s.name line reason.no_nul))

lookup-told :
    (hs : List Header) (n : Bytes)
    → All IsPlainHeader hs
    → (lookup length_name (add length_name n (add_headers hs [])) ≡ some n)
      × (lookup encoding_name (add length_name n (add_headers hs [])) ≡ none)
unfolding lookup equal
lookup-told hs n plain =
    let m = add_headers hs [] in
    let no_length = lookup-add_headers length_name hs [] (All-map (λ h p. p.1) hs plain) in
    let no_encoding = lookup-add_headers encoding_name hs [] (All-map (λ h p. p.2) hs plain) in
    (
      lookup-add length_name length_name n m ∙ rw (get_or_missing length_name [] m no_length) refl,
      lookup-add encoding_name length_name n m ∙ no_encoding,
    )

read_response :
    (old s : HttpStatus) (hs : List Header) (d : Bytes)
    → s.status < 2 ^ 16
    → IsReason s.name
    → All (λ c. is_newline c ≡ false) s.name
    → All IsPlainHeader hs
    → length (response_text s hs d) < size_max
    → read_on (suc (length hs + 3)) (at_line size_max) (new_message old) (response_text s hs d)
      ≡ returned true at_end (received s hs d)
unfolding new_message
read_response old s hs d code reason line plain small =
    let sent : All IsSent hs = All-map (λ h p. p.0) hs plain in
    let last = length_header (decimal (length d)) in
    let ending = line_of last ++ (crlf ++ d) in
    let rest = lines_of hs ++ ending in
    let text : response_text s hs d ≡ startline s ++ (crlf ++ rest) =
      ap (λ t. t ++ rest) (startline_text s) ∙ append_assoc (startline s) crlf rest in
    let begun = record (new_message old) {
      start = record s { managed = false };
      stream_state = headers;
    } in
    let t : length (startline s ++ (crlf ++ rest)) < size_max =
      subst (λ x. length x < size_max) text small in
    let first = length-append (startline s) (crlf ++ rest) in
    let second = length-append (lines_of hs) ending in
    let third = length-append (line_of last) (crlf ++ d) in
    let line = startline-IsLine s reason line in
    let started =
      read_start set_startline (full_line (startline s)) (new_message old) (startline s ++ crlf)
        (record s { managed = false }) refl
        (All-append _ (startline s) crlf (All-map (λ c p. p.0) (startline s) line) (omega arith))
        (set_startline-startline old s code reason) in
    let start =
      loop_step set_startline (length hs + 3) size_max (new_message old) begun (startline s) rest
        line (omega (arith, t)) started in
    let (e, through) =
      read_lines hs 3 (length (startline s ++ crlf)) begun ending refl sent
        (omega (arith, t, first)) in
    let told = record begun { header_map = add_headers hs [] } in
    let length_read =
      read_line 2 e told last (crlf ++ d) refl (length_header-IsSent (length d))
        (omega (arith, t, first, second)) in
    let known = record told { header_map = add length_name (decimal (length d)) told.header_map } in
    let (known_length, known_encoding) = lookup-told hs (decimal (length d)) plain in
    let payload =
      read_payload (length (line_of last)) known d refl refl known_length known_encoding
        (omega (arith, t, first, second, third)) in
    ap (read_on (suc (length hs + 3)) (at_line size_max) (new_message old)) text
    ∙ start
    ∙ through
    ∙ length_read
    ∙ payload

-- The fuel of OnData is enough.
pub message_data-response_text :
    (old s : HttpStatus) (hs : List Header) (d : Bytes)
    → s.status < 2 ^ 16
    → IsReason s.name
    → All (λ c. is_newline c ≡ false) s.name
    → All IsPlainHeader hs
    → length (response_text s hs d) < size_max
    → message_data set_startline new_reader (new_message old) (response_text s hs d) []
      ≡ returned true at_end (received s hs d)
unfolding message_data on_data new_reader
message_data-response_text old s hs d code reason line plain small =
    let text = response_text s hs d in
    let m = new_message old in
    let enough = suc (length text) in
    let rounds = suc (length hs + 3) in
    let read = read_response old s hs d code reason line plain small in
    let total = message_data-IsDone set_startline new_reader m text tt (omega (arith, small)) in
    sym (on_data_loop-add (on_buffered set_startline) enough rounds (at_line size_max) m text total)
    ∙ ap (λ f. read_on f (at_line size_max) m text) (add_comm enough rounds)
    ∙ on_data_loop-add (on_buffered set_startline) rounds enough (at_line size_max) m text
        (subst IsDone (sym read) tt)
    ∙ read

-- What one side writes, the other reads: the bytes of a response, given to a parser, end the
-- message, which has the response's status, its headers in order, its length and the pieces of the
-- payload as content. The code is a uint16_t. The reason phrase is not empty, holds no NUL or line
-- break and does not end in a blank. A header has a name that is not empty and holds no blank or
-- colon, a value that holds no line break and does not begin with a blank, and no NUL in either; none
-- is Content-Length or Transfer-Encoding. All the bytes together are fewer than size_max.
pub message_data-respond :
    (old s : HttpStatus) (hs : List Header) (ds : List Bytes)
    → s.status < 2 ^ 16
    → IsReason s.name
    → All (λ c. is_newline c ≡ false) s.name
    → All IsPlainHeader hs
    → length (response_text s hs (all_of ds)) < size_max
    → (w : Writer) × (respond s hs ds ≡ ok w)
      × (message_data set_startline new_reader (new_message old) w.output []
          ≡ returned true at_end (received s hs (all_of ds)))
message_data-respond old s hs ds code reason line plain small =
    let (w, sent, text) = respond-output s hs ds in
    (
      w,
      sent,
      rw text (message_data-response_text old s hs (all_of ds) code reason line plain small),
    )
