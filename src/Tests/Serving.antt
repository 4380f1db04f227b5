-- ===== src/Tests/Serving.antt =====
-- Requests that handlers answer, and what goes out.
use rikitiki.Base.{
  ℕ, true, List, [], ◌∷◌, Option, some, none, ◌≡◌, refl, arith, Bytes, codes, equal,
}
use rikitiki.Base.Decimal.{decimal}
use rikitiki.Base.StringMap.{lookup}
use rikitiki.Context.{Returned, ok, err}
use rikitiki.Context.Serve.{new_context, serve, answer, serve-answer}
use rikitiki.Context.Thrown.{serve-threw, serve-unmarked}
use rikitiki.Conversions.{Handlers, new_conversions, accept_header}
use rikitiki.Conversions.Table.{is_declared}
use rikitiki.Conversions.Accept.{types_of, get_list-accept_header}
use rikitiki.Dispatch.{
  Context, Attempt, answers, returned, threw, Handler, get_handler, server_handle,
}
use rikitiki.Http.ContentType.{ContentType, to_string}
use rikitiki.Http.Header.{add, get_list}
use rikitiki.Http.Outgoing.{Writer, set_status}
use rikitiki.Http.Outgoing.RoundTrip.{received}
use rikitiki.Http.Status
use rikitiki.Http.Status.{HttpStatus, start_string}
use rikitiki.RequestClient.{Client, new_client, on_data, on_close}
use rikitiki.RequestClient.Exchange.{IsReadable, serve-on_close}
use rikitiki.Tests.Messages.{host, status_ok, host_plain}

abbrev attempt_of : Returned → Attempt Writer
attempt_of (ok ctx) = returned ctx
attempt_of (err ctx e) = returned ctx

abbrev context_of : Returned → Context Writer
context_of (ok ctx) = ctx
context_of (err ctx e) = ctx

-- A handler for one URI that writes a header and a text in two pieces.
abbrev greeter : Handler Bytes Writer
greeter = record {
  can_handle = λ uri. answers (equal uri (codes "/hello"));
  handle = λ ctx. attempt_of (answer Status.ok (host ∷ []) (codes "Hel" ∷ codes "lo" ∷ []) ctx);
}

abbrev greeted : Context Writer
greeted = context_of (answer Status.ok (host ∷ []) (codes "Hel" ∷ codes "lo" ∷ []) new_context)

greeting-IsReadable : IsReadable Status.ok (host ∷ []) (codes "Hello")
greeting-IsReadable = record {
  code = omega arith;
  reason = status_ok;
  one_line = ground arith;
  plain = (host_plain, tt);
  small = unfold decimal start_string in omega arith;
}

serve-on_close_example :
    (ctx' : Context Writer) × (c : Client ℕ) × (c' : Client ℕ) × (serve
        (greeter ∷ [])
        (codes "/hello")
      ≡ ok ctx')
    × (on_data (new_client [] 0) ctx'.state.output [] ≡ some (c, true))
    × (on_close c ≡ some c')
    × (c'.promise ≡ some (received Status.ok (host ∷ []) (codes "Hello")))
serve-on_close_example =
    serve-on_close [] 0 (greeter ∷ []) (codes "/hello") greeter Status.ok (host ∷ [])
      (codes "Hel" ∷ codes "lo" ∷ []) greeted (unfold get_handler equal in refl)
      (unfold answer in refl) (unfold answer in refl) greeting-IsReadable

serve-answer_example :
    (ctx' : Context Writer) × (serve (greeter ∷ []) (codes "/hello") ≡ ok ctx')
    × (ctx'.state.output
        ≡ codes "HTTP/1.1 200 OK\r\nServer: rikitiki\r\nContent-Length: 5\r\n\r\nHello")
serve-answer_example =
    unfold decimal start_string in
    serve-answer (greeter ∷ []) (codes "/hello") greeter Status.ok (host ∷ [])
      (codes "Hel" ∷ codes "lo" ∷ []) greeted (unfold get_handler equal in refl)
      (unfold answer in refl) (unfold answer in refl)

-- A handler that throws with 404 when it has written a header already.
abbrev late : Handler Bytes Writer
late = record {
  can_handle = λ uri. answers true;
  handle = λ ctx. threw (context_of (answer Status.ok (host ∷ []) [] ctx)) (some Status.not_found);
}

-- The client is told 200.
serve-threw_example :
    (ctx' : Context Writer) × (serve (late ∷ []) (codes "/hello") ≡ ok ctx')
    × (ctx'.state.output ≡ codes "HTTP/1.1 200 OK\r\nServer: rikitiki\r\nContent-Length: 0\r\n\r\n")
serve-threw_example =
    unfold decimal start_string in
    serve-threw (late ∷ []) (codes "/hello") late Status.ok (host ∷ []) (some Status.not_found)
      (context_of (answer Status.ok (host ∷ []) [] new_context)) (unfold get_handler in refl)
      (unfold answer in refl) (unfold answer in refl)

-- A handler that throws with 404 and has not called Handler::Handle.
abbrev unmarked : Handler Bytes Writer
unmarked = record {
  can_handle = λ uri. answers true;
  handle = λ ctx. threw ctx (some Status.not_found);
}

-- Nothing is sent.
serve-unmarked_example :
    ((server_handle (λ w. codes "/hello") set_status (unmarked ∷ []) new_context).0 ≡ true)
    × (ctx' : Context Writer) × (serve (unmarked ∷ []) (codes "/hello") ≡ ok ctx')
    × (ctx'.state.output ≡ [])
serve-unmarked_example =
    serve-unmarked (unmarked ∷ []) (codes "/hello") unmarked (some Status.not_found) new_context
      (unfold get_handler in refl) refl refl

-- Two classes: JSON, and XML under two names, one of which JSON has too.
abbrev classes : List (List ContentType × ℕ)
classes =
    (ContentType.text_xml ∷ ContentType.application_json ∷ [], 1)
    ∷ (ContentType.application_json ∷ [], 2)
    ∷ []

abbrev handlers_of : Option (Handlers ℕ) → Handlers ℕ
handlers_of none = []
handlers_of (some hs) = hs

get_list-accept_header_example :
    (get_list
        (codes "Accept")
        (add (codes "Accept") (accept_header (handlers_of (new_conversions classes))).second [])
      ≡ some (codes "application/json" ∷ codes "text/xml" ∷ []))
    × (types_of [] (codes "application/json" ∷ codes "text/xml" ∷ [])
        ≡ ContentType.application_json ∷ ContentType.text_xml ∷ [])
get_list-accept_header_example =
    unfold to_string in
    get_list-accept_header classes (handlers_of (new_conversions classes))
      ContentType.application_json (ContentType.text_xml ∷ []) [] []
      (unfold new_conversions in refl) (unfold is_declared in refl) (unfold lookup in refl)
