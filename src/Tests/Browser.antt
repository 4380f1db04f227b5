-- ===== src/Tests/Browser.antt =====
-- The binding to an embedded browser.
use rikitiki.Base.{true, false, Option, [], ◌∷◌, none, some, ◌≡◌, refl, arith, codes}
use rikitiki.Cef.{Request, Response, empty_response, write_payload}
use rikitiki.Cef.Resource.{read_response, get_response_headers}
use rikitiki.Cef.Body.{Reach, begun, written, read, IsDelivered, Reach-IsDelivered}
use rikitiki.Cef.Client.{RequestClient, new_client, on_request_complete}
use rikitiki.Cef.Exchange.{blank, download, on_request_complete-Reach}
use rikitiki.Dispatch.{returned, answers, Handler}
use rikitiki.Http.Memory.{respond_payload, payload_state}
use rikitiki.Http.RequestMethod.{RequestMethod}
use rikitiki.Http.Status

abbrev willing : Handler Request (Response Unit)
willing = record { can_handle = λ r. answers true; handle = λ ctx. returned ctx }

-- "Hello" is written behind a read that found nothing, and read in two pieces.
abbrev waiting : Response Unit
waiting = (read_response false 2 tt (empty_response none)).2

abbrev result : Option (Response Unit) → Response Unit
result none = waiting
result (some r) = r

abbrev greeted : Response Unit
greeted = result (write_payload (codes "Hello") waiting)

abbrev half_read : Response Unit
half_read = (read_response false 2 tt greeted).2

half_read-Reach : Reach none (codes "Hello") (codes "He") half_read
unfolding read_response write_payload respond_payload payload_state empty_response
half_read-Reach =
    let asked : Reach none [] [] waiting = read false 2 tt (omega arith) begun in
    let told : Reach none (codes "Hello") [] greeted = written (codes "Hello") asked refl in
    read false 2 tt (omega arith) told

Reach-IsDelivered_example : IsDelivered (codes "Hello") (codes "He") half_read
Reach-IsDelivered_example =
    Reach-IsDelivered none (codes "Hello") (codes "He") half_read half_read-Reach

abbrev all_read : Response Unit
all_read = (read_response true 8 tt half_read).2

all_read-Reach : Reach none (codes "Hello") (codes "Hello") all_read
unfolding read_response write_payload respond_payload payload_state empty_response
all_read-Reach = read true 8 tt (omega arith) half_read-Reach

on_request_complete-Reach_example :
    (c : RequestClient) × (on_request_complete
        (get_response_headers [] blank all_read).0
        (download (codes "Hel" ∷ codes "lo" ∷ []) new_client)
      ≡ some c)
    × (c.promise
        ≡ some
            (record Status.ok { managed = false }, record { headers = []; body = codes "Hello" }))
on_request_complete-Reach_example =
    unfold read_response write_payload respond_payload payload_state empty_response in
    on_request_complete-Reach none (codes "Hello") (codes "Hello") all_read
      (codes "Hel" ∷ codes "lo" ∷ []) [] all_read-Reach refl refl (omega arith)
