-- ===== src/Tests/Bindings.antt =====
-- The mongoose server's requests and websockets, and the registration of a class's functions.
use mathlib.Core.List.{foldl, filter_map, Permᴰ}
use mathlib.Core.List.Permᴰ
use rikitiki.Base.{ℕ, Bool, true, false, [], ◌∷◌, some, ◌≡◌, refl, arith, Bytes, codes, length}
use rikitiki.Dispatch.{returned, answers, Handler}
use rikitiki.Http.Header.{Utf}
use rikitiki.Http.Header.Query.{store}
use rikitiki.Http.RequestMethod.{RequestMethod, to_string}
use rikitiki.Mongoose.{HttpMessage, new_request, request_method}
use rikitiki.Mongoose.Received.{IsWidening, add_pairs, new_request-received}
use rikitiki.Mongoose.Sockets.{ws_receive}
use rikitiki.Mongoose.Sockets.Delivery.{has_process, ws_receive_same, ws_receive-IsTable}
use rikitiki.Rest.{Registration, calls, register}
use rikitiki.Rest.Order.{made, register-made}
use rikitiki.Routing.{Route}
use rikitiki.Websocket.Frame.{FrameInfo}
use rikitiki.Websocket.Process
use rikitiki.Websocket.Process.{Process, new_process}
use rikitiki.Websocket.Server.{ProcessClass, Server, at_key}
use rikitiki.Websocket.Server.Table.{IsTable}

abbrev bytewise : Utf
bytewise = record { widen = λ s. s; narrow = λ s. s }

bytewise-IsWidening : IsWidening bytewise
bytewise-IsWidening = record { ascii = λ s h. refl }

abbrev posted : HttpMessage
posted = record {
  method = codes "POST";
  uri = codes "/form";
  query_string = codes "a=1";
  headers = (codes "Host", codes "example.org") ∷ (codes "Accept", codes "*/*") ∷ [];
  body = codes "b=2&b=3";
}

new_request-received_example :
    let r = new_request bytewise posted in
    (r.uri ≡ codes "/form")
    × (r.body ≡ codes "b=2&b=3")
    × (r.qs ≡ foldl store [] ((codes "a", codes "1") ∷ []))
    × (r.post ≡ foldl store [] ((codes "b", codes "2") ∷ (codes "b", codes "3") ∷ []))
    × (r.headers
        ≡ add_pairs ((codes "Host", codes "example.org") ∷ (codes "Accept", codes "*/*") ∷ []) [])
    × (request_method r ≡ RequestMethod.post)
new_request-received_example =
    unfold to_string in
    new_request-received bytewise bytewise-IsWidening RequestMethod.post (codes "/form")
      ((codes "a", codes "1") ∷ []) ((codes "b", codes "2") ∷ (codes "b", codes "3") ∷ [])
      ((codes "Host", codes "example.org") ∷ (codes "Accept", codes "*/*") ∷ []) (omega arith)
      (omega arith) (omega arith) (omega arith) (λ e. cc e, (λ e. cc e, tt))

abbrev State : Type 0
State = Process × Bytes

-- Keep the last text, or drop it.
abbrev keep_text : Process.Delivery → Bytes → Bytes × Bool
keep_text (Process.text t) s = (t, true)
keep_text (Process.binary t) s = (s, true)

abbrev drop_text : Process.Delivery → Bytes → Bytes × Bool
drop_text d s = (s, false)

abbrev idle : ProcessClass State
idle = record { on_ready = λ p. p; on_close = λ p. p }

abbrev fresh_info : FrameInfo
fresh_info = record { opcode = 0; size = 0; is_masked = false; is_finished = false; mask = 0 }

abbrev connected : Server State
connected = record { processes = (3, some (new_process, [])) ∷ (5, some (new_process, [])) ∷ [] }

-- A final text frame, 0x81.
ws_receive_same_example :
    ws_receive idle keep_text fresh_info 3 129 (codes "hi") 2 connected
    ≡ ws_receive idle drop_text fresh_info 3 129 (codes "hi") 2 connected
ws_receive_same_example =
    ws_receive_same keep_text drop_text idle fresh_info 3 129 (codes "hi") 2 connected

-- A ping, 0x89, closes the connection.
abbrev remaining : Server State
remaining = record { processes = (5, some (new_process, [])) ∷ [] }

ws_receive-IsTable_example :
    IsTable remaining.processes
    × (at_key 5 remaining.processes ≡ at_key 5 connected.processes)
    × (has_process (at_key 3 remaining.processes) ≡ false)
ws_receive-IsTable_example =
    ws_receive-IsTable idle keep_text fresh_info 3 5 137 [] 0 1 connected remaining (omega arith)
      (omega arith) (unfold ws_receive in refl)

-- A class with functions for GET, with and without an id.
abbrev gets : Registration → Bool
gets c = elim c.method [ RequestMethod.get ↦ true | _ ↦ false ]

abbrev handler_of : Route → Handler ℕ ℕ
handler_of r = record {
  can_handle = λ n. answers true;
  handle = λ ctx. returned (record ctx { state = length r.route });
}

register-made_example :
    (register gets handler_of calls (codes "/item") []
      ≡ (2, made gets handler_of (codes "/item") (codes "/item/{id}") calls))
    × Permᴰ
        (made gets handler_of (codes "/item") (codes "/item/{id}") calls)
        (made gets handler_of (codes "/item") (codes "/item/{id}") calls)
register-made_example =
    unfold made filter_map in
    register-made gets handler_of calls (codes "/item") [] (Permᴰ.refl calls)
