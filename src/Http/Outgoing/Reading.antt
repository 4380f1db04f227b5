-- ===== src/Http/Outgoing/Reading.antt =====
-- src/http/incoming/Message.cc: the parser on the parts of a response as a writer writes them: the
-- header lines, the empty line, the body.
use native.Mathlib.Nat.{suc-add, zero-add}
use rikitiki.Base.Decimal.{decimal, decimal-IsDigits, is_digit}
use rikitiki.Base.StringMap.{lookup}
use rikitiki.Base.{
  ℕ, suc, ◌+◌, ◌^◌, ◌<◌, true, false, List, [], ◌∷◌, ◌++◌, none, some, ◌≡◌, ◌≢◌, refl, ap, ◌∙◌,
  arith, Bytes, isspace, equal_iff, length, All, HasNoNul, append_assoc, append-nil, length-append,
  ne→==,
}
use rikitiki.Http.Header.{HeaderCollection, Header, add, lookup-add}
use rikitiki.Http.Parsing.{headers, body, finished, known_size, BufferMode, size_max}
use rikitiki.Http.Parsing.Scan.{is_newline, begins_blank}
use rikitiki.Http.Parsing.Reader.{Reader, Outcome, returned, pass}
use rikitiki.Http.Parsing.Reader.Round
use rikitiki.Http.Parsing.Reader.Line.{crlf, at_line, full_line, loop_crlf}
use rikitiki.Http.Incoming.{IMessage, on_buffered}
use rikitiki.Http.Incoming.Client.{stream_client}
use rikitiki.Http.Incoming.Steps.{
  IsSent, add_headers, header_text, header_text_line, header_text-IsLine, loop, loop_step,
  read_header, read_end, read_sized, length_name, encoding_name,
}
use rikitiki.Http.Outgoing.{length_header}
use rikitiki.Http.Outgoing.Output.{line_of, lines_of}
use rikitiki.Http.Response.{set_startline}
use rikitiki.Http.Status.{HttpStatus}

-- A header that does not tell how the body is delimited.
abbrev pub IsPlainHeader : Header → Type 0
IsPlainHeader h = IsSent h × (h.first ≢ length_name) × (h.first ≢ encoding_name)

pub digits-plain :
    (v : Bytes)
    → All (λ c. is_digit c ≡ true) v
    → All (λ c. is_newline c ≡ false) v × HasNoNul v × (begins_blank v ≡ false)
digits-plain [] h = (tt, tt, refl)
digits-plain (c ∷ v) (d, h) =
    let (line, text, _) = digits-plain v h in
    ((ground arith, line), (ground arith, text), ground arith)

pub length_header-IsSent : (n : ℕ) → IsSent (length_header (decimal n))
length_header-IsSent n =
    let (line, text, start) = digits-plain (decimal n) (decimal-IsDigits n) in
    record {
      name = unfold isspace in ground arith;
      value = (line, start);
      named = λ e. cc e;
      name_text = omega arith;
      value_text = text;
    }

pub lookup-add_headers :
    (name : Bytes) (hs : List Header) (m : HeaderCollection)
    → All (λ h. h.first ≢ name) hs
    → lookup name (add_headers hs m) ≡ lookup name m
lookup-add_headers name [] m other = refl
lookup-add_headers name (h ∷ hs) m (ne, other) =
    lookup-add_headers name hs (add h.first h.second m) other
    ∙ lookup-add name h.first h.second m
    ∙ ground (arith, equal_iff name h.first)

abbrev pub read_on : ℕ → Reader → IMessage HttpStatus → Bytes → Outcome (IMessage HttpStatus)
read_on = loop set_startline

line_of_text : (h : Header) (rest : Bytes) → line_of h ++ rest ≡ header_text h ++ (crlf ++ rest)
line_of_text h rest = simp append_assoc

pub read_line :
    (f e : ℕ) (m : IMessage HttpStatus) (h : Header) (rest : Bytes)
    → m.stream_state ≡ headers
    → IsSent h
    → length (line_of h ++ rest) < 2 ^ 64
    → read_on (suc f) (at_line e) m (line_of h ++ rest)
      ≡ read_on f
          (at_line (length (line_of h)))
          (record m { header_map = add h.first h.second m.header_map })
          rest
read_line f e m h rest s sent small =
    rw (line_of_text h rest, header_text_line h)
      (loop_step set_startline f e m _ (header_text h) rest (header_text-IsLine h sent)
        (rw (line_of_text h rest) at small)
        (rw (header_text_line h) at
          (read_header set_startline (full_line (header_text h)) m h s sent)))

-- Every header is added in turn.
pub read_lines :
    (hs : List Header) (f e : ℕ) (m : IMessage HttpStatus) (rest : Bytes)
    → m.stream_state ≡ headers
    → All IsSent hs
    → length (lines_of hs ++ rest) < 2 ^ 64
    → (e' : ℕ) × (read_on (length hs + f) (at_line e) m (lines_of hs ++ rest)
        ≡ read_on f (at_line e') (record m { header_map = add_headers hs m.header_map }) rest)
read_lines [] f e m rest s sent small = (e, rw zero-add refl)
read_lines (h ∷ hs) f e m rest s (first, sent) small =
    let rest' = lines_of hs ++ rest in
    let all : length (line_of h ++ rest') < 2 ^ 64 = rw (append_assoc (line_of h)) at small in
    let m' = record m { header_map = add h.first h.second m.header_map } in
    let (e', later) =
      read_lines hs f (length (line_of h)) m' rest s sent
        (omega (arith, length-append (line_of h) rest')) in
    (
      e',
      rw (append_assoc (line_of h), suc-add)
          (read_line (length hs + f) e m h rest' s first all ∙ later),
    )

-- The reader behind a message with a known size.
abbrev pub at_end : Reader
at_end = record { mode = BufferMode.none; expected_size = 0; buffer = [] }

read_rest :
    (f : ℕ) (m : IMessage HttpStatus) (c : ℕ) (cs : Bytes)
    → m.stream_state ≡ body
    → m.body_type ≡ known_size
    → m.is_bad ≡ false
    → read_on (suc f) (record at_end { expected_size = length (c ∷ cs) }) m (c ∷ cs)
      ≡ returned true at_end (record m { stream_state = finished; content = m.content ++ c ∷ cs })
read_rest f m c cs s t good =
    let r = record at_end { expected_size = length (c ∷ cs) } in
    Round.loop_body (on_buffered set_startline) (stream_client set_startline) f r m c cs refl
    ∙ ap pass (read_sized set_startline r m c cs s t good refl)

-- The empty line and the body behind it.
pub read_payload :
    (e : ℕ) (m : IMessage HttpStatus) (d : Bytes)
    → m.stream_state ≡ headers
    → m.is_bad ≡ false
    → lookup length_name m.header_map ≡ some (decimal (length d))
    → lookup encoding_name m.header_map ≡ none
    → length (crlf ++ d) < size_max
    → read_on 2 (at_line e) m (crlf ++ d)
      ≡ returned true at_end
          (record m { body_type = known_size; stream_state = finished; content = m.content ++ d })
read_payload e m [] s good sized plain small =
    loop_crlf (on_buffered set_startline) (stream_client set_startline) 1 e m [] [] tt (omega arith)
    ∙ rw (read_end set_startline m 0 s sized plain (omega arith), append-nil m.content)
read_payload e m (c ∷ cs) s good sized plain small =
    loop_crlf (on_buffered set_startline) (stream_client set_startline) 1 e m [] (c ∷ cs) tt
      (omega arith)
    ∙ rw
        (
          read_end set_startline m (length (c ∷ cs)) s sized plain (omega arith),
          ne→== (length (c ∷ cs)) 0 (omega arith),
        )
        (read_rest 0 (record m { body_type = known_size; stream_state = body }) c cs refl refl good)
