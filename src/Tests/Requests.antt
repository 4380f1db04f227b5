-- ===== src/Tests/Requests.antt =====
-- Requests and messages in memory, and what a client sends.
use rikitiki.Base.{[], ◌∷◌, ◌++◌, none, some, ◌≡◌, refl, arith, codes}
use rikitiki.Http.ContentType.{ContentType}
use rikitiki.Http.Header.{Header, Utf}
use rikitiki.Http.Incoming.{content_length, transfer_encoding}
use rikitiki.Http.Incoming.Steps.{add_headers}
use rikitiki.Http.Memory.{
  RequestMemory, new_request, set_method, write_header, write_payload, ◌>>=◌,
}
use rikitiki.Http.Memory.Collected.{write_headers, write_payloads, write_payloads-write_headers}
use rikitiki.Http.Message.{Message, content_type, set_content_length, set_content_type, put_text}
use rikitiki.Http.Message.Setters.{IsUtf, content_length-set_content_length}
use rikitiki.Http.Request.{Addresses, startline, set_startline}
use rikitiki.Http.Request.StartLine.{set_startline-startline_method}
use rikitiki.Http.RequestMethod
use rikitiki.RequestClient.{request_text}
use rikitiki.RequestClient.Sent.{read_head, read_head-request_text}
use rikitiki.Tests.Messages.{host}

-- A conversion that takes bytes for code points.
abbrev bytewise : Utf
bytewise = record { widen = λ s. s; narrow = λ s. s }

bytewise-IsUtf : IsUtf bytewise
bytewise-IsUtf = record { ascii = λ s h. refl }

abbrev posted : Message
posted = record { headers = (codes "Server", codes "rikitiki") ∷ []; body = codes "a=1" }

content_length-set_content_length_example :
    let m' : Message = set_content_length bytewise 3 posted in
    let m'' : Message = set_content_type bytewise ContentType.text_csv posted in
    (content_length m'.headers ≡ 3)
    × (transfer_encoding m'.headers ≡ transfer_encoding posted.headers)
    × (m'.body ≡ codes "a=1")
    × (content_length m''.headers ≡ content_length posted.headers)
    × (transfer_encoding m''.headers ≡ transfer_encoding posted.headers)
    × (m''.body ≡ codes "a=1")
    × (content_type m'' [] ≡ content_type posted [])
content_length-set_content_length_example =
    content_length-set_content_length bytewise bytewise-IsUtf 3 ContentType.text_csv posted []
      (omega arith)

abbrev addresses : Addresses
addresses = record { blank = codes "0x55d0c8"; version = codes "0x55d0d0" }

set_startline-startline_method_example :
    (set_startline (codes "PUT /a b HTTP/1.1") ≡ some RequestMethod.put)
    × (set_startline (codes "PUT0x55d0c8/a0x55d0d0") ≡ none)
set_startline-startline_method_example =
    unfold startline in
    set_startline-startline_method addresses RequestMethod.put (codes "/a") (codes "/a b HTTP/1.1")
      (record { blank = omega arith; version = omega arith }) (omega arith)

abbrev accepting : Header
accepting = record { first = codes "Accept"; second = codes "text/csv" }

write_payloads-write_headers_example :
    (r : RequestMemory) × ((write_headers
          (host ∷ accepting ∷ [])
          (set_method RequestMethod.post (new_request (codes "/f")))
        >>= write_payloads (codes "a=" ∷ codes "1" ∷ []))
      ≡ some r)
    × (r.message ≡ record { headers = add_headers (host ∷ accepting ∷ []) []; body = codes "a=1" })
    × (r.method ≡ RequestMethod.post)
    × (r.uri ≡ codes "/f")
    × (write_header host r ≡ none)
    × (write_payload (codes "2") r ≡ some (record r { message = put_text (codes "2") r.message }))
write_payloads-write_headers_example =
    write_payloads-write_headers RequestMethod.post (codes "/f") (host ∷ accepting ∷ [])
      (codes "a=") (codes "1" ∷ []) host (codes "2")

-- A body with a NUL in it is cut.
abbrev cut_short : Message
cut_short = record posted { body = codes "a=1" ++ (0 ∷ codes "&b=2") }

read_head-request_text_example :
    read_head [] (request_text bytewise (codes "POST /f HTTP/1.1") (codes "example.org") cut_short)
    ≡ (
      codes "POST /f HTTP/1.1" ∷ codes "Host: example.org" ∷ codes "Server: rikitiki" ∷ [],
      codes "a=1",
    )
read_head-request_text_example =
    read_head-request_text bytewise (codes "POST /f HTTP/1.1") (codes "example.org") cut_short
      (λ e. cc e) (omega arith) (omega arith) (omega arith)
