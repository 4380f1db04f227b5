-- ===== src/Cef/Resource.antt =====
-- src/cef/server.cc: the resource handler of a request and the server that makes it.
use rikitiki.Base.{
  ℕ, Bool, false, not, List, ◌∷◌, ◌++◌, Option, none, some, if◌then◌else◌, Bytes, length, take,
  drop, starts_with, ◌==◌, ◌||◌,
}
use rikitiki.Base.StringMap.{StringMap}
use rikitiki.Dispatch.{Context, Attempt, returned, threw, Handler, Found, no_handler, get_handler}
use rikitiki.Http.ContentType.{ContentType, to_string}
use rikitiki.Http.Incoming.{content_length}
use rikitiki.Http.Message.{content_type}
use rikitiki.Cef.{CefRequest, Request, new_request, Response, empty_response}

-- What the browser is told of a response.
pub record CefResponse : Type 0 where
  pub status : ℕ
  pub status_text : Bytes
  pub response_length : ℕ
  pub header_map : List (Bytes × Bytes)
  pub mime_type : Bytes

module _ {C : Type 0} where
  -- ResourceHandler::ProcessRequest; `none` where Handle throws. `alone` says that no other reference
  -- to the context is left.
  abbrev after_handle : Bool → C → Attempt (Response C) → Option (Context (Response C))
  after_handle alone callback (threw ctx status) = none
  after_handle alone callback (returned ctx) = some (
      if alone
      then elim ctx.state.headers_ready [
        | none ↦ ctx
        | some c ↦ record ctx {
          state = record ctx.state { continued = callback ∷ ctx.state.continued };
        }
      ]
      else ctx)

  unfoldable pub process_request :
      {R : Type 0} → Bool → C → Handler R (Response C) → Option (Context (Response C))
  unfolding empty_response
  process_request alone callback h =
      after_handle alone callback
        (h.handle (record { handled = false; state = empty_response (some callback) }))

  -- ResourceHandler::GetResponseHeaders. The length is -1 as a 64-bit number where none is given. The
  -- names that ContentType knows are given and returned.
  unfoldable pub get_response_headers :
      StringMap ContentType → CefResponse → Response C → CefResponse × StringMap ContentType
  unfolding content_type to_string
  get_response_headers types before r =
      let (type, types') = content_type r.memory.message types in
      (
        record {
          status = r.memory.status.status;
          status_text = r.memory.status.name;
          response_length = content_length r.memory.message.headers;
          header_map = before.header_map ++ r.memory.message.headers;
          mime_type = to_string type;
        },
        types',
      )

  abbrev with_unread : Bytes → Response C → Response C
  with_unread rest r = record r {
    memory = record r.memory { message = record r.memory.message { body = rest } };
  }

  -- ResourceHandler::ReadResponse: what is read, what is returned, and what is left.
  unfoldable pub read_response : Bool → ℕ → C → Response C → Bytes × Bool × Response C
  read_response alone bytes_to_read callback r =
      let d = take bytes_to_read r.memory.message.body in
      let rest = with_unread (drop bytes_to_read r.memory.message.body) r in
      let nothing = length d == 0 in
      (
        d,
        not nothing || not alone,
        record rest { data_ready = if nothing then some callback else none },
      )

  -- CefInternalServer::GetResourceHandler, through the handler that it makes a ResourceHandler of.
  unfoldable pub get_resource_handler :
      Bytes → List (Handler Request (Response C)) → CefRequest → Found Request (Response C)
  unfolding get_handler new_request
  get_resource_handler hostname handlers request =
      if starts_with hostname request.url
      then get_handler handlers (new_request request)
      else no_handler
