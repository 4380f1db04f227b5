-- ===== src/Http/Outgoing/Output.antt =====
-- src/http/outgoing/Message.cc: the calls that write a whole response, and its text.
use rikitiki.Base.Decimal.{decimal}
use rikitiki.Base.{
  List, [], ◌∷◌, ◌++◌, ◌≡◌, refl, sym, ap, ◌∙◌, Bytes, codes, length, append-nil, append_assoc,
}
use rikitiki.Http.Header.{Header}
use rikitiki.Http.Parsing.{headers, body, buffering}
use rikitiki.Http.Parsing.Scan.{header_line}
use rikitiki.Http.Status.{HttpStatus, start_string}
use rikitiki.Http.Outgoing.{
  Writer, new_writer, Result, ok, ◌>>=◌, write_header, write_payload, done, set_status,
  length_header,
}

unfoldable pub write_headers : List Header → Writer → Result
write_headers [] w = ok w
write_headers (h ∷ hs) w = do w' ← write_header h w; write_headers hs w'

unfoldable pub write_payloads : List Bytes → Writer → Result
write_payloads [] w = ok w
write_payloads (d ∷ ds) w = do w' ← write_payload d w; write_payloads ds w'

-- A whole response: its status, its headers, its payload in pieces, and the end.
unfoldable pub respond : HttpStatus → List Header → List Bytes → Result
unfolding set_status
respond s hs ds = do
  w ← write_headers hs (set_status s new_writer)
  w' ← write_payloads ds w
  done w'

abbrev pub all_of : List Bytes → Bytes
all_of [] = []
all_of (d ∷ ds) = d ++ all_of ds

abbrev pub status_line : HttpStatus → Bytes
status_line s = codes "HTTP/1.1 " ++ (start_string s ++ codes "\r\n")

abbrev pub line_of : Header → Bytes
line_of h = header_line h.first h.second

abbrev pub lines_of : List Header → Bytes
lines_of [] = []
lines_of (h ∷ hs) = line_of h ++ lines_of hs

-- The bytes of a response with that status, those headers and that payload.
abbrev pub response_text : HttpStatus → List Header → Bytes → Bytes
response_text s hs d =
    status_line s
    ++ (lines_of hs ++ (line_of (length_header (decimal (length d))) ++ (codes "\r\n" ++ d)))

-- The three states that a writer of a response without declared length goes through.
abbrev pub fresh : HttpStatus → Writer
fresh s = record new_writer { status = s }

abbrev pub in_headers : HttpStatus → Bytes → Writer
in_headers s out = record new_writer { stream_state = headers; status = s; output = out }

abbrev in_body : HttpStatus → Bytes → Bytes → Writer
in_body s out buf = record new_writer {
  stream_state = body;
  body_type = buffering;
  status = s;
  buffer = buf;
  output = out;
}

write_header-fresh :
    (s : HttpStatus) (h : Header)
    → write_header h (fresh s) ≡ ok (in_headers s (status_line s ++ line_of h))
unfolding write_header
write_header-fresh s h = ap (λ t. ok (in_headers s t)) (simp append_assoc)

write_header-in_headers :
    (s : HttpStatus) (out : Bytes) (h : Header)
    → write_header h (in_headers s out) ≡ ok (in_headers s (out ++ line_of h))
unfolding write_header
write_header-in_headers s out h = ap (λ t. ok (in_headers s t)) (simp append_assoc)

write_headers-in_headers :
    (s : HttpStatus) (hs : List Header) (out : Bytes)
    → write_headers hs (in_headers s out) ≡ ok (in_headers s (out ++ lines_of hs))
unfolding write_headers
write_headers-in_headers s [] out = ap (λ t. ok (in_headers s t)) (sym (append-nil out))
write_headers-in_headers s (h ∷ hs) out = rw (write_header-in_headers s out h) (
    write_headers-in_headers s hs (out ++ line_of h)
    ∙ ap (λ t. ok (in_headers s t)) (append_assoc out (line_of h) (lines_of hs)))

pub write_headers-fresh :
    (s : HttpStatus) (h : Header) (hs : List Header)
    → write_headers (h ∷ hs) (fresh s)
      ≡ ok (in_headers s ((status_line s ++ line_of h) ++ lines_of hs))
unfolding write_headers
write_headers-fresh s h hs =
    rw (write_header-fresh s h) (write_headers-in_headers s hs (status_line s ++ line_of h))

write_payload-fresh :
    (s : HttpStatus) (d : Bytes) → write_payload d (fresh s) ≡ ok (in_body s (status_line s) d)
unfolding write_payload
write_payload-fresh s d = ap (λ t. ok (in_body s t d)) (simp append_assoc)

write_payload-in_headers :
    (s : HttpStatus) (out d : Bytes) → write_payload d (in_headers s out) ≡ ok (in_body s out d)
unfolding write_payload
write_payload-in_headers s out d = refl

write_payload-in_body :
    (s : HttpStatus) (out buf d : Bytes)
    → write_payload d (in_body s out buf) ≡ ok (in_body s out (buf ++ d))
unfolding write_payload
write_payload-in_body s out buf d = refl

write_payloads-in_body :
    (s : HttpStatus) (ds : List Bytes) (out buf : Bytes)
    → write_payloads ds (in_body s out buf) ≡ ok (in_body s out (buf ++ all_of ds))
unfolding write_payloads
write_payloads-in_body s [] out buf = ap (λ t. ok (in_body s out t)) (sym (append-nil buf))
write_payloads-in_body s (d ∷ ds) out buf = rw (write_payload-in_body s out buf d) (
    write_payloads-in_body s ds out (buf ++ d)
    ∙ ap (λ t. ok (in_body s out t)) (append_assoc buf d (all_of ds)))

-- The end of a response with that much written and that payload.
abbrev pub closing : Bytes → Bytes → Bytes
closing out d = out ++ (line_of (length_header (decimal (length d))) ++ (codes "\r\n" ++ d))

abbrev pub Ends : Result → Bytes → Type 0
Ends r out = (w : Writer) × (r ≡ ok w) × (w.output ≡ out)

pub done-fresh : (s : HttpStatus) → Ends (done (fresh s)) (closing (status_line s) [])
unfolding done
done-fresh s = (_, refl, simp append_assoc)

pub done-in_headers :
    (s : HttpStatus) (out : Bytes) → Ends (done (in_headers s out)) (closing out [])
unfolding done
done-in_headers s out = (_, refl, simp append_assoc)

done-in_body : (s : HttpStatus) (out d : Bytes) → Ends (done (in_body s out d)) (closing out d)
unfolding done
done-in_body s out d = (_, refl, simp append_assoc)

finish-in_headers :
    (s : HttpStatus) (ds : List Bytes) (out : Bytes)
    → Ends (write_payloads ds (in_headers s out) >>= done) (closing out (all_of ds))
unfolding write_payloads
finish-in_headers s [] out = done-in_headers s out
finish-in_headers s (d ∷ ds) out =
    rw (write_payload-in_headers s out d, write_payloads-in_body s ds out d)
      (done-in_body s out (d ++ all_of ds))

finish-fresh :
    (s : HttpStatus) (ds : List Bytes)
    → Ends (write_payloads ds (fresh s) >>= done) (closing (status_line s) (all_of ds))
unfolding write_payloads
finish-fresh s [] = done-fresh s
finish-fresh s (d ∷ ds) =
    rw (write_payload-fresh s d, write_payloads-in_body s ds (status_line s) d)
      (done-in_body s (status_line s) (d ++ all_of ds))

-- A response whose headers are written before its payload is written without an exception, and the
-- bytes written are the status line, the headers in order, the length of the whole payload as
-- Content-Length, an empty line, and the pieces of the payload one behind the other.
pub respond-output :
    (s : HttpStatus) (hs : List Header) (ds : List Bytes)
    → (w : Writer) × (respond s hs ds ≡ ok w) × (w.output ≡ response_text s hs (all_of ds))
unfolding respond
respond-output s [] ds = unfold write_headers in finish-fresh s ds
respond-output s (h ∷ hs) ds =
    let out = (status_line s ++ line_of h) ++ lines_of hs in
    let (w, ends, written) = finish-in_headers s ds out in
    (
      w,
      ap (λ r. r >>= λ w. write_payloads ds w >>= done) (write_headers-fresh s h hs) ∙ ends,
      written ∙ simp append_assoc,
    )
