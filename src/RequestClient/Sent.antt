-- ===== src/RequestClient/Sent.antt =====
-- src/http/helpers/SimpleRequestClient.cc: the text that MakeRequest sends, as a receiver takes it that
-- ends a line at a line feed and the head at the first empty line.
use rikitiki.Base.{
  ℕ, Bool, true, false, List, [], ◌∷◌, ◌++◌, ◌≡◌, ◌≢◌, refl, sym, ap, ◌∙◌, arith, ◌==◌,
  if◌then◌else◌, Bytes, codes, c_str, map, All, All-append, append-nil, append_assoc, ne→==,
}
use rikitiki.Http.Header.{Utf, HeaderCollection}
use rikitiki.Http.Message.{Message}
use rikitiki.RequestClient.{request_text, sent_headers}

abbrev is_empty : Bytes → Bool
is_empty [] = true
is_empty (c ∷ cs) = false

abbrev line_and : Bytes → List Bytes × Bytes → List Bytes × Bytes
line_and line (lines, rest) = (line ∷ lines, rest)

-- The lines up to the first empty one, and what follows it.
pub read_head : Bytes → Bytes → List Bytes × Bytes
read_head line [] = (line ∷ [], [])
read_head line (c ∷ cs) =
    let next = line_and line (read_head [] cs) in
    let more = read_head (line ++ c ∷ []) cs in
    if c == b'\n' then (if is_empty line then ([], cs) else next) else more

abbrev pub IsOneLine : Bytes → Type 0
IsOneLine = All (λ c. c ≢ b'\n')

full-is_empty : (s : Bytes) → s ≢ [] → is_empty s ≡ false
full-is_empty [] ne = absurd (ne refl)
full-is_empty (c ∷ cs) ne = refl

read_head_line :
    (line s rest : Bytes)
    → IsOneLine s
    → (line ++ s) ≢ []
    → read_head line (s ++ (codes "\n" ++ rest)) ≡ line_and (line ++ s) (read_head [] rest)
unfolding read_head
read_head_line line [] rest h ne =
    let full : line ≢ [] = λ e. ne (append-nil line ∙ e) in
    rw (full-is_empty line full, append-nil line) refl
read_head_line line (c ∷ s) rest (other, h) ne =
    let same : (line ++ c ∷ []) ++ s ≡ line ++ (c ∷ s) = append_assoc line (c ∷ []) s in
    rw (ne→== c 10 other) (
      read_head_line (line ++ c ∷ []) s rest h (λ e. ne (sym same ∙ e))
      ∙ ap (λ t. line_and t (read_head [] rest)) same)

abbrev pub header_text : Bytes × Bytes → Bytes
header_text h = c_str h.0 ++ (codes ": " ++ c_str h.1)

abbrev pub host_line : Bytes → Bytes
host_line host = codes "Host: " ++ host

abbrev pub IsOneLineHeader : Bytes × Bytes → Type 0
IsOneLineHeader h = IsOneLine (c_str h.0) × IsOneLine (c_str h.1)

header-line : (h : Bytes × Bytes) → IsOneLineHeader h → IsOneLine (header_text h)
header-line h (name, value) =
    let colon : IsOneLine (codes ": ") = omega arith in
    All-append _ (c_str h.0) (codes ": " ++ c_str h.1) name
      (All-append _ (codes ": ") (c_str h.1) colon value)

header-ne-nil : (h : Bytes × Bytes) → header_text h ≢ []
header-ne-nil h = append_colon (c_str h.0)
  where
    append_colon : (name : Bytes) → name ++ (codes ": " ++ c_str h.1) ≢ []
    append_colon [] = λ e. cc e
    append_colon (c ∷ name) = λ e. cc e

read_head_headers :
    (hs : HeaderCollection) (content : Bytes)
    → All IsOneLineHeader hs
    → read_head [] (sent_headers hs ++ (codes "\n" ++ content)) ≡ (map header_text hs, content)
unfolding read_head
read_head_headers [] content h = refl
read_head_headers (h ∷ hs) content (p, ps) =
    let text : sent_headers (h ∷ hs) ++ (codes "\n" ++ content)
        ≡ header_text h ++ (codes "\n" ++ (sent_headers hs ++ (codes "\n" ++ content))) =
      simp append_assoc in
    ap (read_head []) text
    ∙ read_head_line [] (header_text h) (sent_headers hs ++ (codes "\n" ++ content))
        (header-line h p) (header-ne-nil h)
    ∙ ap (line_and (header_text h)) (read_head_headers hs content ps)

-- A receiver that takes lines from the text of MakeRequest up to the first empty one finds the
-- request's start line, then the host's line and the headers in the collection's order, each as its
-- name, a colon, a blank and its value, and behind the empty line the body; where the start line, names,
-- values and body are what stands before their first NUL, the start line is then not empty, and it, the
-- host and the headers hold no line feed.
pub read_head-request_text :
    (utf : Utf) (line : Bytes) (host : List ℕ) (m : Message)
    → c_str line ≢ []
    → IsOneLine (c_str line)
    → IsOneLine (utf.narrow host)
    → All IsOneLineHeader m.headers
    → read_head [] (request_text utf line host m)
      ≡ (c_str line ∷ host_line (utf.narrow host) ∷ map header_text m.headers, c_str m.body)
unfolding request_text
read_head-request_text utf line host m full start name headers =
    let rest = sent_headers m.headers ++ (codes "\n" ++ c_str m.body) in
    let host_start : IsOneLine (codes "Host: ") = omega arith in
    read_head_line [] (c_str line) (host_line (utf.narrow host) ++ (codes "\n" ++ rest)) start full
    ∙ ap (line_and (c_str line)) (
        read_head_line [] (host_line (utf.narrow host)) rest
          (All-append _ (codes "Host: ") (utf.narrow host) host_start name) (λ e. cc e)
        ∙ ap (line_and (host_line (utf.narrow host)))
            (read_head_headers m.headers (c_str m.body) headers))
