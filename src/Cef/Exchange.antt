-- ===== src/Cef/Exchange.antt =====
-- src/cef/server.cc, src/cef/RequestClient.h: a response from the handler that writes it to the client
-- of a request that the program has sent itself.
use rikitiki.Base.{
  ℕ, ◌%◌, ◌^◌, ◌<◌, false, List, [], ◌∷◌, ◌++◌, append_assoc, append-nil, Option, some, ◌≡◌, refl,
  sym, ap, ◌∙◌, Bytes,
}
use native.Mathlib.Nat.{mod-eq_of_lt}
use rikitiki.Base.StringMap.{StringMap}
use rikitiki.Cef.{Response}
use rikitiki.Cef.Resource.{CefResponse, get_response_headers}
use rikitiki.Cef.Body.{Reach, Reach-IsDelivered}
use rikitiki.Cef.Client.{RequestClient, new_client, add_all, on_download_data, on_request_complete}
use rikitiki.Http.ContentType.{ContentType}
use rikitiki.Http.Message.{Message}
use rikitiki.Http.Outgoing.Output.{all_of}
use rikitiki.Http.Status.{HttpStatus}

-- The data as the browser hands it to the client, piece by piece.
pub download : List Bytes → RequestClient → RequestClient
unfolding on_download_data
download [] c = c
download (d ∷ ds) c = download ds (on_download_data d c)

-- A CefResponse as the browser makes it.
abbrev pub blank : CefResponse
blank = record {
  status = 200;
  status_text = [];
  response_length = 0;
  header_map = [];
  mime_type = [];
}

download-all_of :
    (ds : List Bytes) (c : RequestClient)
    → download ds c ≡ record c { message = record c.message { body = c.message.body ++ all_of ds } }
unfolding download on_download_data
download-all_of [] c = rw append-nil refl
download-all_of (d ∷ ds) c =
    download-all_of ds (record c { message = record c.message { body = c.message.body ++ d } })
    ∙ rw append_assoc refl

module _ {C : Type 0} where
  -- When all that was written to a response has been read, and the browser hands what it has read to the
  -- client of the request, in whatever pieces, and then the response's status and headers, the promise
  -- is fulfilled with that status, whose code is a uint16_t, the headers added in order, and all data
  -- that the handler has written.
  pub on_request_complete-Reach :
      (callback : Option C) (w d : Bytes) (r : Response C) (ds : List Bytes)
      (types : StringMap ContentType)
      → Reach callback w d r
      → r.memory.message.body ≡ []
      → all_of ds ≡ d
      → r.memory.status.status < 2 ^ 16
      → (c : RequestClient) × (on_request_complete
            (get_response_headers types blank r).0
            (download ds new_client)
          ≡ some c)
        × (c.promise
            ≡ some (
              record r.memory.status { managed = false },
              record { headers = add_all r.memory.message.headers []; body = w },
            ))
  unfolding on_request_complete get_response_headers
  on_request_complete-Reach callback w d r ds types reached drained pieces code =
      let (whole, fed) = Reach-IsDelivered callback w d r reached in
      let all : all_of ds ≡ w =
        pieces ∙ sym (append-nil d) ∙ ap (◌++◌ d) (sym drained) ∙ sym whole in
      let told = (get_response_headers types blank r).0 in
      let message : Bytes → Message =
        λ t. record { headers = add_all r.memory.message.headers []; body = t } in
      let status : ℕ → HttpStatus = λ n. record r.memory.status { status = n; managed = false } in
      (
        record {
          status = status (r.memory.status.status % 2 ^ 16);
          message = message (all_of ds);
          promise = some (status (r.memory.status.status % 2 ^ 16), message (all_of ds));
        },
        ap (on_request_complete told) (download-all_of ds new_client),
        ap (λ n. some (status n, message (all_of ds))) (mod-eq_of_lt code)
            ∙ ap (λ t. some (status r.memory.status.status, message t)) all,
      )
