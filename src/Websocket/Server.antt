-- ===== src/Websocket/Server.antt =====
-- src/websocket/websocketServer.cc, src/websocket/websocketProcess.cc: the server's handlers and its
-- table of processes, and WebsocketRoute. A process and its context are parameters; the table is
-- std::map with handles as keys, in the order of the keys. Null is `none`.
pub mod Table
use rikitiki.Base.{
  ℕ, Bool, true, false, List, [], ◌∷◌, ◌++◌, Option, none, some, ◌==◌, ltb, if◌then◌else◌, Bytes,
  c_str, equal,
}

-- What a class derived from WebsocketProcess does.
pub record ProcessClass (P : Type 0) : Type 0 where
  pub on_ready : P → P
  pub on_close : P → P

abbrev pub Table : Type 0 → Type 0
Table P = List (ℕ × Option P)

unfoldable pub at_key {ℓ} : {V : Type ℓ} → ℕ → List (ℕ × V) → Option V
at_key k [] = none
at_key k ((j, v) ∷ m) = if k == j then some v else at_key k m

-- `processes[k] = v` on a sorted table.
unfoldable pub put {ℓ} : {V : Type ℓ} → ℕ → V → List (ℕ × V) → List (ℕ × V)
put k v [] = (k, v) ∷ []
put k v ((j, w) ∷ m) =
    let later = put k v m in
    if k == j then (k, v) ∷ m else if ltb k j then (k, v) ∷ (j, w) ∷ m else (j, w) ∷ later

unfoldable pub erase {ℓ} : {V : Type ℓ} → ℕ → List (ℕ × V) → List (ℕ × V)
erase k [] = []
erase k ((j, w) ∷ m) = let later = erase k m in if k == j then m else (j, w) ∷ later

pub record Server (P : Type 0) : Type 0 where
  pub processes : Table P

-- `processes[k]`: a missing key is given null.
abbrev pub found {ℓ} : {P : Type ℓ} → Option (Option P) → Option P
found none = none
found (some v) = v

module _ {P : Type 0} (process_class : ProcessClass P) where
  open process_class use {on_ready, on_close}

  -- Server::OnReady
  unfoldable pub ready : ℕ → Server P → Server P
  unfolding at_key put
  ready handle s =
      let process = found (at_key handle s.processes) in
      record s {
        processes = elim process [
          | none ↦ put handle none s.processes
          | some p ↦ put handle (some (on_ready p)) s.processes
        ];
      }

  -- Server::Close: the process is told and removed. A missing process fails the assertion.
  unfoldable pub close : ℕ → Server P → Option (P × Server P)
  unfolding at_key erase
  close handle s = elim (found (at_key handle s.processes)) [
    | none ↦ none
    | some p ↦ some (on_close p, record s { processes = erase handle s.processes })
  ]

-- WebsocketRoute::Handle. CreateProcessor and OnConnect are the route's and the process's: the first
-- makes a process for the context `C`, the second may turn it away.
pub record Route (C P : Type 0) : Type 0 where
  pub route : Bytes
  pub create_processor : C → P
  pub on_connect : P → P × Bool

module _ {C P : Type 0} (uri : C → Bytes) where
  unfoldable pub route_handle : Route C P → C → Option P
  unfolding equal
  route_handle r ctx =
      let (p, connected) = r.on_connect (r.create_processor ctx) in
      if equal (c_str r.route) (c_str (uri ctx)) then (if connected then some p else none) else none

-- Server::HandleWs: the first handler that gives a process.
unfoldable pub handle_ws {ℓ} : {C P : Type ℓ} → List (C → Option P) → C → Option P
handle_ws [] ctx = none
handle_ws (h ∷ hs) ctx =
    let later = handle_ws hs ctx in elim (h ctx) [ none ↦ later | some p ↦ some p ]

-- Server::AddWsHandler
abbrev pub add_ws_handler {ℓ} :
    {C P : Type ℓ} → (C → Option P) → List (C → Option P) → List (C → Option P)
add_ws_handler h hs = hs ++ h ∷ []
