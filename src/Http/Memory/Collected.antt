-- ===== src/Http/Memory/Collected.antt =====
-- src/http/outgoing/Request.cc, src/http/outgoing/Response.cc: what messages in memory have collected, and
-- which calls they refuse.
use rikitiki.Base.{
  List, [], ◌∷◌, ◌++◌, Option, none, some, ◌≡◌, refl, sym, ap, ◌∙◌, Bytes, append-nil, append_assoc,
}
use rikitiki.Http.Header.{Header, HeaderCollection, add}
use rikitiki.Http.RequestMethod.{RequestMethod}
use rikitiki.Http.Incoming.Steps.{add_headers}
use rikitiki.Http.Message.{put_text}
use rikitiki.Http.Outgoing.Output.{all_of}
use rikitiki.Http.Parsing.{headers, body, buffering}
use rikitiki.Http.Memory.{
  OMessage, new_omessage, set_method, RequestMemory, new_request, write_header, write_payload,
  ◌>>=◌,
}

unfoldable pub write_headers : List Header → RequestMemory → Option RequestMemory
unfolding write_header
write_headers [] r = some r
write_headers (h ∷ hs) r = do r' ← write_header h r; write_headers hs r'

unfoldable pub write_payloads : List Bytes → RequestMemory → Option RequestMemory
unfolding write_payload
write_payloads [] r = some r
write_payloads (d ∷ ds) r = do r' ← write_payload d r; write_payloads ds r'

-- The states of OMessage that a message of no declared length goes through.
abbrev in_headers : OMessage
in_headers = record new_omessage { stream_state = headers }

abbrev in_body : OMessage
in_body = record new_omessage { stream_state = body; body_type = buffering }

abbrev after_headers : List Header → OMessage
after_headers [] = new_omessage
after_headers (h ∷ hs) = in_headers

module _ (method : RequestMethod) (uri : Bytes) where
  abbrev request_at : OMessage → HeaderCollection → Bytes → RequestMemory
  request_at o m b = record {
    out = o;
    method = method;
    uri = uri;
    message = record { headers = m; body = b };
  }

  write_headers-in_headers :
      (hs : List Header) (m : HeaderCollection) (b : Bytes)
      → write_headers hs (request_at in_headers m b)
        ≡ some (request_at in_headers (add_headers hs m) b)
  unfolding write_headers
  write_headers-in_headers [] m b = refl
  write_headers-in_headers (h ∷ hs) m b = write_headers-in_headers hs (add h.first h.second m) b

  write_headers-new :
      (hs : List Header)
      → write_headers hs (request_at new_omessage [] [])
        ≡ some (request_at (after_headers hs) (add_headers hs []) [])
  unfolding write_headers
  write_headers-new [] = refl
  write_headers-new (h ∷ hs) = write_headers-in_headers hs (add h.first h.second []) []

  write_payloads-in_body :
      (ds : List Bytes) (m : HeaderCollection) (b : Bytes)
      → write_payloads ds (request_at in_body m b) ≡ some (request_at in_body m (b ++ all_of ds))
  unfolding write_payloads
  write_payloads-in_body [] m b = ap (λ t. some (request_at in_body m t)) (sym (append-nil b))
  write_payloads-in_body (d ∷ ds) m b =
      write_payloads-in_body ds m (b ++ d)
      ∙ ap (λ t. some (request_at in_body m t)) (append_assoc b d (all_of ds))

  write_payloads-first :
      (hs : List Header) (d : Bytes) (ds : List Bytes) (m : HeaderCollection)
      → write_payloads (d ∷ ds) (request_at (after_headers hs) m [])
        ≡ some (request_at in_body m (d ++ all_of ds))
  unfolding write_payloads
  write_payloads-first [] d ds m = write_payloads-in_body ds m d
  write_payloads-first (h ∷ hs) d ds m = write_payloads-in_body ds m d

  -- A new request in memory, given headers and then a payload in at least one piece, throws nothing; it
  -- holds the headers added in order, the pieces one behind the other, and its method and URI. Then
  -- a further header throws, and a further piece is put behind the others.
  pub write_payloads-write_headers :
      (hs : List Header) (d : Bytes) (ds : List Bytes) (h : Header) (more : Bytes)
      → (r : RequestMemory) × ((write_headers hs (set_method method (new_request uri))
            >>= write_payloads (d ∷ ds))
          ≡ some r)
        × (r.message ≡ record { headers = add_headers hs []; body = all_of (d ∷ ds) })
        × (r.method ≡ method)
        × (r.uri ≡ uri)
        × (write_header h r ≡ none)
        × (write_payload more r ≡ some (record r { message = put_text more r.message }))
  unfolding write_header write_payload
  write_payloads-write_headers hs d ds h more = (
    request_at in_body (add_headers hs []) (d ++ all_of ds),
    rw (write_headers-new hs) (write_payloads-first hs d ds (add_headers hs [])),
    refl,
    refl,
    refl,
    refl,
    refl,
  )
