-- ===== src/Context/Thrown.antt =====
-- src/server.cc, src/connContext.cc: what goes out where a handler throws.
use rikitiki.Base.{
  true, false, List, [], ◌∷◌, ◌++◌, append_assoc, Option, none, some, ◌≡◌, refl, ap, ◌∙◌,
}
use rikitiki.Http.Header.{Header}
use rikitiki.Http.Status.{HttpStatus}
use rikitiki.Http.Status
use rikitiki.Http.Outgoing.{
  Writer, Result, new_writer, write_header, write_payload, set_status, done,
}
use rikitiki.Http.Outgoing
use rikitiki.Http.Outgoing.Output.{
  response_text, fresh, in_headers, done-fresh, done-in_headers, write_headers-fresh, status_line,
  line_of, lines_of,
}
use rikitiki.Dispatch.{Context, threw, Handler, found, get_handler, server_handle, caught}
use rikitiki.Dispatch.Choice.{server_handle-threw}
use rikitiki.Context.{ok, ref_put_status, clean_context}
use rikitiki.Context.Serve.{
  new_context, serve, answer, with_writer, put_headers, put_texts, put_headers-write_headers,
  clean-ends,
}

-- The status of an exception.
abbrev pub thrown_status : Option HttpStatus → HttpStatus
thrown_status none = Status.internal_server_error
thrown_status (some t) = t

-- The status on the wire: the exception's where no header has been written before it.
abbrev pub sent_status : List Header → (before thrown : HttpStatus) → HttpStatus
sent_status [] s thrown = thrown
sent_status (h ∷ hs) s thrown = s

caught-writer :
    (thrown : Option HttpStatus) (w : Writer)
    → caught {R = Unit {0}} (λ w. tt) set_status thrown (with_writer w)
      ≡ with_writer (set_status (thrown_status thrown) w)
caught-writer none w = refl
caught-writer (some t) w = refl

-- Closing a context whose status is set anew after a status and headers were written.
threw-response :
    (s t : HttpStatus) (hs : List Header)
    → (w w' : Writer) × (answer s hs [] new_context ≡ ok (with_writer w))
      × (done (set_status t w) ≡ Outgoing.ok w')
      × (w'.output ≡ response_text (sent_status hs s t) hs [])
unfolding answer ref_put_status set_status put_headers put_texts
threw-response s t [] = let (w', ends, written) = done-fresh t in (fresh s, w', refl, ends, written)
threw-response s t (h ∷ hs) =
    let out = (status_line s ++ line_of h) ++ lines_of hs in
    let (w', ends, written) = done-in_headers t out in
    (
      in_headers s out,
      w',
      rw
          (put_headers-write_headers (h ∷ hs) (fresh s) (in_headers s out)
            (write_headers-fresh s h hs))
          refl,
      ends,
      written ∙ simp append_assoc,
    )

unmarked_stays :
    {R : Type 0} (request : R) (thrown : Option HttpStatus) (ctx : Context Writer)
    → ctx.handled ≡ false
    → clean_context (caught (λ (w : Writer). request) set_status thrown ctx)
      ≡ ok (caught (λ (w : Writer). request) set_status thrown ctx)
unfolding clean_context
unmarked_stays request none ctx h = rw h refl
unmarked_stays request (some t) ctx h = rw h refl

caught-output :
    {R : Type 0} (request : R) (thrown : Option HttpStatus) (ctx : Context Writer)
    → (caught (λ (w : Writer). request) set_status thrown ctx).state.output ≡ ctx.state.output
unfolding set_status
caught-output request none ctx = refl
caught-output request (some t) ctx = refl

module _ {R : Type 0} (handlers : List (Handler R Writer)) (request : R)
    (h : Handler R Writer) where
  -- Where the handler that GetHandler names throws a HandlerException after it has marked its context and written a status
  -- and headers, the response has those headers and no payload. Its status is the exception's, or 500 where that is
  -- null, if no header was written; if one was, it is the status from before, and the exception's is lost.
  pub serve-threw :
      (s : HttpStatus) (hs : List Header) (thrown : Option HttpStatus) (ctx : Context Writer)
      → get_handler handlers request ≡ found h
      → answer s hs [] new_context ≡ ok ctx
      → h.handle new_context ≡ threw ctx thrown
      → (ctx' : Context Writer) × (serve handlers request ≡ ok ctx')
        × (ctx'.state.output ≡ response_text (sent_status hs s (thrown_status thrown)) hs [])
  unfolding serve
  serve-threw s hs thrown ctx chosen answered throws =
      let (w, w', answers, ends, written) = threw-response s (thrown_status thrown) hs in
      let same : ctx ≡ with_writer w = cc in
      (
        with_writer w',
        rw
            (
              server_handle-threw (λ w. request) set_status handlers h new_context ctx thrown refl
                  chosen throws,
              same,
            )
            (ap clean_context (caught-writer thrown w)
              ∙ clean-ends (set_status (thrown_status thrown) w) w' ends),
        written,
      )

  -- Where that handler throws a HandlerException with the context not marked as handled, Handle returns
  -- true, but the response is not ended: what was written before is all that goes out.
  pub serve-unmarked :
      (thrown : Option HttpStatus) (ctx : Context Writer)
      → get_handler handlers request ≡ found h
      → h.handle new_context ≡ threw ctx thrown
      → ctx.handled ≡ false
      → ((server_handle (λ w. request) set_status handlers new_context).0 ≡ true)
        × (ctx' : Context Writer) × (serve handlers request ≡ ok ctx')
        × (ctx'.state.output ≡ ctx.state.output)
  unfolding serve
  serve-unmarked thrown ctx chosen throws unmarked =
      let caught_at =
        server_handle-threw (λ w. request) set_status handlers h new_context ctx thrown refl chosen
          throws in
      (
        ap (λ r. r.0) caught_at,
        caught (λ (w : Writer). request) set_status thrown ctx,
        ap (λ r. clean_context r.1) caught_at ∙ unmarked_stays request thrown ctx unmarked,
        caught-output request thrown ctx,
      )
