-- ===== src/Http/Incoming/Steps.antt =====
-- src/http/incoming/Message.cc: OnBufferedData on one line of each kind, and the loop behind it.
use rikitiki.Base.Decimal.{decimal, read_size-decimal}
use rikitiki.Base.StringMap.{lookup}
use rikitiki.Base.{
  ℕ, suc, ◌^◌, ◌<◌, true, false, List, [], ◌∷◌, ◌++◌, Option, none, some, ◌≡◌, ◌≢◌, refl, ap, ◌∙◌,
  arith, ◌==◌, if◌then◌else◌, Bytes, codes, c_str_whole, isspace, length, All, All-append, HasNoNul,
  append_assoc, ne→==,
}
use rikitiki.Http.Encoding.{Encoding, is_chunked}
use rikitiki.Http.Header.{HeaderCollection, Header, add, get_size, get_encoding}
use rikitiki.Http.Parsing.{
  headers, start_line, body, BufferMode, body_type_from, is_finished, known_size, size_max,
  finished,
}
use rikitiki.Http.Parsing.Scan.{
  is_newline, IsHeaderName, IsHeaderValue, header_line, read_header_name_line,
  read_header_value_line,
}
use rikitiki.Http.Parsing.Reader.{Reader, Outcome, deliver, on_data_loop}
use rikitiki.Http.Parsing.Reader.Line.{IsLine, crlf, at_line, full_line, loop_crlf}
use rikitiki.Http.Incoming.{
  IMessage, content_length, transfer_encoding, begins_line_break, headers_end, header_read,
  start_read, state_read, on_buffered, body_read, sized_read,
}
use rikitiki.Http.Incoming.Client.{stream_client}

-- A header whose line is read back: a name that is not empty, and name and value without NUL.
pub record IsSent (h : Header) : Type 0 where
  pub name : IsHeaderName h.first
  pub value : IsHeaderValue h.second
  pub named : h.first ≢ []
  pub name_text : HasNoNul h.first
  pub value_text : HasNoNul h.second

abbrev pub add_headers : List Header → HeaderCollection → HeaderCollection
add_headers [] m = m
add_headers (h ∷ hs) m = add_headers hs (add h.first h.second m)

abbrev pub length_name : Bytes
length_name = codes "Content-Length"

abbrev pub encoding_name : Bytes
encoding_name = codes "Transfer-Encoding"

abbrev pub header_text : Header → Bytes
header_text h = h.first ++ (codes ": " ++ h.second)

pub header_text_line : (h : Header) → header_line h.first h.second ≡ header_text h ++ crlf
header_text_line h = simp append_assoc

name-IsLine : (n : Bytes) → IsHeaderName n → HasNoNul n → IsLine n
unfolding isspace
name-IsLine [] h t = tt
name-IsLine (c ∷ n) ((s, k), h) (ne, t) = ((ne, ground arith), name-IsLine n h t)

pub value-IsLine : (v : Bytes) → All (λ c. is_newline c ≡ false) v → HasNoNul v → IsLine v
value-IsLine [] h t = tt
value-IsLine (c ∷ v) (s, h) (ne, t) = ((ne, s), value-IsLine v h t)

pub header_text-IsLine : (h : Header) → IsSent h → IsLine (header_text h)
header_text-IsLine h s =
    All-append _ h.first _ (name-IsLine h.first s.name s.name_text)
      ((omega arith, refl), ((omega arith, refl), value-IsLine h.second s.value.0 s.value_text))

name_begins : (n rest : Bytes) → n ≢ [] → IsHeaderName n → begins_line_break (n ++ rest) ≡ false
unfolding isspace
name_begins [] rest ne h = absurd (ne refl)
name_begins (c ∷ n) rest ne ((s, k), h) = ground arith

content_length_sized :
    (h : HeaderCollection) (n : ℕ)
    → lookup length_name h ≡ some (decimal n)
    → n < size_max
    → content_length h ≡ n
unfolding get_size
content_length_sized h n sized small =
    rw (sized, get_size) (read_size-decimal size_max n (omega arith))

transfer_encoding_missing :
    (h : HeaderCollection) → lookup encoding_name h ≡ none → transfer_encoding h ≡ Encoding.unknown
unfolding get_encoding
transfer_encoding_missing h plain = rw (plain, get_encoding)

module _ {A : Type 0} (set_startline : A → Bytes → Option A) where
  abbrev pub loop : ℕ → Reader → IMessage A → Bytes → Outcome (IMessage A)
  loop f r m d = on_data_loop (on_buffered set_startline) f r m d []

  -- A line that leaves the reader alone is followed by the next line.
  pub loop_step :
      (f e : ℕ) (m m' : IMessage A) (l rest : Bytes)
      → IsLine l
      → length (l ++ (crlf ++ rest)) < 2 ^ 64
      → on_buffered set_startline (full_line l) m (l ++ crlf) ≡ some (full_line l, m', false)
      → loop (suc f) (at_line e) m (l ++ (crlf ++ rest))
        ≡ loop f (at_line (length (l ++ crlf))) m' rest
  loop_step f e m m' l rest line small called =
      loop_crlf (on_buffered set_startline) (stream_client set_startline) f e m l rest line small
      ∙ ap (λ o. deliver o (λ r' s'. loop f r' s' rest)) called

  pub read_start :
      (r : Reader) (m : IMessage A) (d : Bytes) (a : A)
      → m.stream_state ≡ start_line
      → HasNoNul d
      → set_startline m.start d ≡ some a
      → on_buffered set_startline r m d
        ≡ some (r, record m { start = a; stream_state = headers }, false)
  unfolding on_buffered state_read start_read
  read_start r m d a s text e = rw (s, state_read, c_str_whole d text, e, start_read)

  pub read_header :
      (r : Reader) (m : IMessage A) (h : Header)
      → m.stream_state ≡ headers
      → IsSent h
      → on_buffered set_startline r m (header_line h.first h.second)
        ≡ some (r, record m { header_map = add h.first h.second m.header_map }, false)
  unfolding on_buffered state_read header_read
  read_header r m h s sent = rw (
    s,
    state_read,
    name_begins h.first _ sent.named sent.name,
    read_header_name_line h.first h.second sent.name sent.value,
    header_read,
    read_header_value_line h.second sent.value,
    c_str_whole h.first sent.name_text,
    c_str_whole h.second sent.value_text,
  )

  headers_end_sized :
      (r : Reader) (m : IMessage A) (n : ℕ)
      → lookup length_name m.header_map ≡ some (decimal n)
      → lookup encoding_name m.header_map ≡ none
      → n < size_max
      → headers_end r m
        ≡ some (
          record r { mode = BufferMode.none; expected_size = n },
          record m { body_type = known_size; stream_state = if n == 0 then finished else body },
          is_finished (if n == 0 then finished else body),
        )
  unfolding headers_end body_type_from is_chunked
  headers_end_sized r m n sized plain small = rw (
    headers_end,
    content_length_sized m.header_map n sized small,
    transfer_encoding_missing m.header_map plain,
    body_type_from,
    ne→== n size_max (omega arith),
  )

  -- The empty line behind headers that give a length.
  pub read_end :
      (m : IMessage A) (n : ℕ)
      → m.stream_state ≡ headers
      → lookup length_name m.header_map ≡ some (decimal n)
      → lookup encoding_name m.header_map ≡ none
      → n < size_max
      → on_buffered set_startline (full_line []) m crlf
        ≡ some (
          record (full_line []) { mode = BufferMode.none; expected_size = n },
          record m { body_type = known_size; stream_state = if n == 0 then finished else body },
          is_finished (if n == 0 then finished else body),
        )
  unfolding on_buffered state_read
  read_end m n s sized plain small =
      rw (s, state_read) (headers_end_sized (full_line []) m n sized plain small)

  -- A body that comes in whole.
  pub read_sized :
      (r : Reader) (m : IMessage A) (c : ℕ) (cs : Bytes)
      → m.stream_state ≡ body
      → m.body_type ≡ known_size
      → m.is_bad ≡ false
      → r.expected_size ≡ length (c ∷ cs)
      → on_buffered set_startline r m (c ∷ cs)
        ≡ some (
          record r { mode = BufferMode.none; expected_size = 0 },
          record m { stream_state = finished; content = m.content ++ c ∷ cs },
          true,
        )
  unfolding on_buffered state_read body_read sized_read
  read_sized r m c cs s t good e =
      rw (s, state_read, t, body_read, sized_read, e, good) (ground arith)
