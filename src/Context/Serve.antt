-- ===== src/Context/Serve.antt =====
-- src/server.cc, src/connContext.cc, src/http/outgoing: a request from Server::Handle to the end of its
-- context, and the bytes that have gone out by then.
use rikitiki.Base.{true, false, List, [], ◌∷◌, map, ◌≡◌, refl, ap, Bytes, c_str}
use rikitiki.Http.Header.{Header}
use rikitiki.Http.Status.{HttpStatus}
use rikitiki.Http.Outgoing.{
  Writer, Result, new_writer, write_header, write_payload, set_status, done,
}
use rikitiki.Http.Outgoing
use rikitiki.Http.Outgoing.Output.{
  write_headers, write_payloads, respond, all_of, response_text, respond-output,
}
use rikitiki.Dispatch.{base_handle, Context, returned, Handler, found, get_handler, server_handle}
use rikitiki.Dispatch.Choice.{server_handle-get_handler}
use rikitiki.Context.{
  Returned, ok, ◌>>=◌, ref_put_status, ref_put_header, ref_put_text, clean_context,
}

abbrev pub new_context : Context Writer
new_context = record { handled = false; state = new_writer }

-- Server::Handle, and CleanConnContext when the last reference goes away.
unfoldable pub serve : {R : Type 0} → List (Handler R Writer) → R → Returned
unfolding server_handle set_status clean_context
serve handlers request =
    clean_context (server_handle (λ w. request) set_status handlers new_context).1

-- What a handler does that marks the context, as Handler::Handle does, and then writes a status,
-- headers and texts to its reference.
unfoldable pub put_headers : List Header → Context Writer → Returned
unfolding ref_put_header
put_headers [] ctx = ok ctx
put_headers (h ∷ hs) ctx = do ctx' ← ref_put_header h ctx; put_headers hs ctx'

unfoldable pub put_texts : List Bytes → Context Writer → Returned
unfolding ref_put_text
put_texts [] ctx = ok ctx
put_texts (d ∷ ds) ctx = do ctx' ← ref_put_text d ctx; put_texts ds ctx'

unfoldable pub answer : HttpStatus → List Header → List Bytes → Context Writer → Returned
unfolding ref_put_status put_headers put_texts
answer s hs ds ctx = do
  ctx' ← ref_put_status s (base_handle ctx)
  ctx'' ← put_headers hs ctx'
  put_texts ds ctx''

-- The texts as they are printed.
abbrev pub printed : List Bytes → List Bytes
printed = map c_str

abbrev pub with_writer : Writer → Context Writer
with_writer w = record { handled = true; state = w }

Result-cases :
    (m : Result) (f : Writer → Result) {w : Writer}
    → Outgoing.◌>>=◌ m f ≡ Outgoing.ok w
    → (v : Writer) × (m ≡ Outgoing.ok v) × (f v ≡ Outgoing.ok w)
Result-cases (Outgoing.ok v) f e = (v, refl, e)
Result-cases (Outgoing.err x) f e = cc

pub put_headers-write_headers :
    (hs : List Header) (w w' : Writer)
    → write_headers hs w ≡ Outgoing.ok w'
    → put_headers hs (with_writer w) ≡ ok (with_writer w')
unfolding put_headers ref_put_header write_headers
put_headers-write_headers [] w w' e = cc
put_headers-write_headers (h ∷ hs) w w' e =
    let (v, first, rest) = Result-cases (write_header h w) (write_headers hs) e in
    rw first (put_headers-write_headers hs v w' rest)

put_texts-write_payloads :
    (ds : List Bytes) (w w' : Writer)
    → write_payloads (printed ds) w ≡ Outgoing.ok w'
    → put_texts ds (with_writer w) ≡ ok (with_writer w')
unfolding put_texts ref_put_text write_payloads
put_texts-write_payloads [] w w' e = cc
put_texts-write_payloads (d ∷ ds) w w' e =
    let (v, first, rest) =
      Result-cases (write_payload (c_str d) w) (write_payloads (printed ds)) e in
    rw first (put_texts-write_payloads ds v w' rest)

-- A context that is handled is closed.
pub clean-ends :
    (w w' : Writer) → done w ≡ Outgoing.ok w' → clean_context (with_writer w) ≡ ok (with_writer w')
unfolding clean_context
clean-ends w w' e = rw e refl

-- What `answer` leaves, and that closing it ends the response of Output.
answer-response :
    (s : HttpStatus) (hs : List Header) (ds : List Bytes)
    → (w w' : Writer) × (answer s hs ds new_context ≡ ok (with_writer w))
      × (done w ≡ Outgoing.ok w')
      × (w'.output ≡ response_text s hs (all_of (printed ds)))
unfolding answer ref_put_status respond
answer-response s hs ds =
    let (w'', ends, written) = respond-output s hs (printed ds) in
    let (v, head, rest) = Result-cases (write_headers hs (set_status s new_writer)) _ ends in
    let (w, payload, end) = Result-cases (write_payloads (printed ds) v) done rest in
    (
      w,
      w'',
      rw (put_headers-write_headers hs _ v head) (put_texts-write_payloads ds v w payload),
      end,
      written,
    )

pub answered-handled :
    (s : HttpStatus) (hs : List Header) (ds : List Bytes) (ctx : Context Writer)
    → answer s hs ds new_context ≡ ok ctx
    → ctx.handled ≡ true
answered-handled s hs ds ctx answered =
    let (w, w', answers, ends, written) = answer-response s hs ds in
    let same : ctx ≡ with_writer w = cc in ap (λ c. c.handled) same

module _ {R : Type 0} (handlers : List (Handler R Writer)) (request : R)
    (h : Handler R Writer) where
  -- A request for which GetHandler names a handler that marks its context and writes a status, headers
  -- and then texts leaves, when the context has gone, the response's whole text on the wire, each
  -- text up to a NUL.
  pub serve-answer :
      (s : HttpStatus) (hs : List Header) (ds : List Bytes) (ctx : Context Writer)
      → get_handler handlers request ≡ found h
      → answer s hs ds new_context ≡ ok ctx
      → h.handle new_context ≡ returned ctx
      → (ctx' : Context Writer) × (serve handlers request ≡ ok ctx')
        × (ctx'.state.output ≡ response_text s hs (all_of (printed ds)))
  unfolding serve
  serve-answer s hs ds ctx chosen answered handles =
      let (w, w', answers, ends, written) = answer-response s hs ds in
      let same : ctx ≡ with_writer w = cc in
      (
        with_writer w',
        rw
            (
              server_handle-get_handler (λ w. request) set_status handlers h new_context ctx refl
                  chosen handles (ap (λ c. c.handled) same),
              same,
            )
            (clean-ends w w' ends),
        written,
      )
