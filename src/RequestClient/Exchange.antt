-- ===== src/RequestClient/Exchange.antt =====
-- src/server.cc, src/http/helpers/SimpleRequestClient.cc: a response from the handler that writes it to
-- the client whose promise it fulfils.
use rikitiki.Base.{
  ℕ, ◌^◌, ◌<◌, true, false, List, [], none, some, ◌≡◌, refl, ap, Bytes, length, All,
}
use rikitiki.Context.{ok}
use rikitiki.Context.Serve.{new_context, serve, answer, printed, serve-answer}
use rikitiki.Dispatch.{Context, returned, Handler, found, get_handler}
use rikitiki.Http.Header.{Header}
use rikitiki.Http.Outgoing.{Writer}
use rikitiki.Http.Outgoing.Output.{all_of, response_text}
use rikitiki.Http.Outgoing.RoundTrip.{received, message_data-response_text}
use rikitiki.Http.Outgoing.Reading.{IsPlainHeader, at_end}
use rikitiki.Http.Parsing.{size_max}
use rikitiki.Http.Parsing.Scan.{is_newline}
use rikitiki.Http.Response.StartLine.{IsReason}
use rikitiki.Http.Response.{new_status}
use rikitiki.Http.Status.{HttpStatus}
use rikitiki.RequestClient.{Client, new_client, after_data, on_data, on_close}

-- A response that can be read back: a code that is a uint16_t; a reason phrase that is not empty, holds no
-- NUL or line break and does not end in a blank; headers as RoundTrip takes them; and fewer bytes
-- than size_max.
pub record IsReadable (s : HttpStatus) (hs : List Header) (d : Bytes) : Type 0 where
  pub code : s.status < 2 ^ 16
  pub reason : IsReason s.name
  pub one_line : All (λ c. is_newline c ≡ false) s.name
  pub plain : All IsPlainHeader hs
  pub small : length (response_text s hs d) < size_max

module _ {S : Type 0} (host : List ℕ) (socket : S) where
  on_data-response_text :
      (s : HttpStatus) (hs : List Header) (d : Bytes)
      → IsReadable s hs d
      → (c : Client S) × (on_data (new_client host socket) (response_text s hs d) []
          ≡ some (c, true))
        × (c.response ≡ received s hs d)
        × (c.promise ≡ none)
  unfolding on_data new_client
  on_data-response_text s hs d h = (
    record (new_client host socket) { reader = at_end; response = received s hs d },
    ap (after_data (new_client host socket))
        (message_data-response_text new_status s hs d h.code h.reason h.one_line h.plain h.small),
    refl,
    refl,
  )

  on_close-fresh :
      (c : Client S) → c.promise ≡ none → on_close c ≡ some (record c { promise = some c.response })
  unfolding on_close
  on_close-fresh c h = rw (h, on_close) refl

  -- A request for which GetHandler names a handler that marks its context and writes a status, headers
  -- and then texts is answered without an exception; a new client that the bytes on the wire come to
  -- is told that the response is complete, and closing it fulfils the promise with the response's
  -- status, its headers in order, its length and the texts, each up to a NUL, as content; where the
  -- response can be read back.
  pub serve-on_close :
      {R : Type 0} (handlers : List (Handler R Writer)) (request : R) (h : Handler R Writer)
      (s : HttpStatus) (hs : List Header) (ds : List Bytes) (ctx : Context Writer)
      → get_handler handlers request ≡ found h
      → answer s hs ds new_context ≡ ok ctx
      → h.handle new_context ≡ returned ctx
      → IsReadable s hs (all_of (printed ds))
      → (ctx' : Context Writer) × (c : Client S) × (c' : Client S) × (serve handlers request
          ≡ ok ctx')
        × (on_data (new_client host socket) ctx'.state.output [] ≡ some (c, true))
        × (on_close c ≡ some c')
        × (c'.promise ≡ some (received s hs (all_of (printed ds))))
  serve-on_close handlers request h s hs ds ctx chosen answered handles readable =
      let (ctx', served, text) =
        serve-answer handlers request h s hs ds ctx chosen answered handles in
      let (c, complete, response, fresh) =
        on_data-response_text s hs (all_of (printed ds)) readable in
      (
        ctx',
        c,
        record c { promise = some c.response },
        served,
        rw text complete,
        on_close-fresh c fresh,
        ap some response,
      )
