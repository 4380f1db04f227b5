-- ===== src/Mongoose/Events.antt =====
-- src/mongoose/server.cc: the answer to an event.
use rikitiki.Base.{true, false, List, [], ◌≡◌, refl, sym, ap, ◌∙◌, Bytes, not}
use rikitiki.Context.{ok, clean_context}
use rikitiki.Context.Serve.{new_context, answer, printed, answered-handled, serve, serve-answer}
use rikitiki.Dispatch.{Context, returned, Handler, found, no_handler, get_handler}
use rikitiki.Dispatch.Choice.{server_handle-get_handler, server_handle-no_handler}
use rikitiki.Http.Header.{Utf, Header}
use rikitiki.Http.Outgoing.{Writer, set_status}
use rikitiki.Http.Outgoing.Output.{all_of, response_text}
use rikitiki.Http.Status.{HttpStatus}
use rikitiki.Mongoose.{
  HttpMessage, MongooseRequest, new_request, handle_event, http_request, websocket_handshake,
  served,
}

module _ (utf : Utf) (handlers : List (Handler MongooseRequest Writer)) (hm : HttpMessage) where
  -- An HTTP request for which GetHandler names a handler that marks its context and writes a status,
  -- headers and then texts is answered with the response's whole text, each text up to a NUL, and is
  -- not served as static content.
  pub handle_event-answer :
      (h : Handler MongooseRequest Writer) (s : HttpStatus) (hs : List Header) (ds : List Bytes)
      (ctx : Context Writer)
      → get_handler handlers (new_request utf hm) ≡ found h
      → answer s hs ds new_context ≡ ok ctx
      → h.handle new_context ≡ returned ctx
      → (ctx' : Context Writer) × (handle_event utf handlers (http_request hm)
          ≡ served true false (ok ctx'))
        × (ctx'.state.output ≡ response_text s hs (all_of (printed ds)))
  unfolding handle_event
  handle_event-answer h s hs ds ctx chosen answered handles =
      let (ctx', ends, written) =
        serve-answer handlers (new_request utf hm) h s hs ds ctx chosen answered handles in
      let taken =
        server_handle-get_handler (λ w. new_request utf hm) set_status handlers h new_context ctx
          refl chosen handles (answered-handled s hs ds ctx answered) in
      let closed : clean_context ctx ≡ ok ctx' =
        ap (λ r. clean_context r.1) (sym taken) ∙ unfold serve in ends in
      (
        ctx',
        ap (λ r. served r.0 (not r.0) (clean_context r.1)) taken ∙ ap (served true false) closed,
        written,
      )

  -- A request for which GetHandler names no handler is served as static content, a handshake is not;
  -- in both cases Handle returns false and nothing is written.
  pub handle_event-no_handler :
      get_handler handlers (new_request utf hm) ≡ no_handler
      → (handle_event utf handlers (http_request hm) ≡ served false true (ok new_context))
        × (handle_event utf handlers (websocket_handshake hm) ≡ served false false (ok new_context))
        × (new_context.state.output ≡ [])
  unfolding handle_event clean_context
  handle_event-no_handler none_named =
      let passed =
        server_handle-no_handler (λ w. new_request utf hm) set_status handlers new_context refl
          none_named in
      (
        ap (λ r. served r.0 (not r.0) (clean_context r.1)) passed,
        ap (λ r. served r.0 false (clean_context r.1)) passed,
        refl,
      )
