-- ===== src/Mongoose/Sockets.antt =====
-- src/mongoose/server.cc: the websocket callbacks of MongooseServer, on its table of processes. A process
-- is a WebsocketProcess with the state of its derived class. A failed assertion is `none`.
pub mod Delivery
use rikitiki.Base.{ℕ, Bool, true, false, List, Option, none, some, ◌==◌, if◌then◌else◌, Bytes}
use rikitiki.Websocket.Frame.{FrameInfo, Frame, bit, op_code, init}
use rikitiki.Websocket.Process
use rikitiki.Websocket.Process.{Process, on_receive_frame}
use rikitiki.Websocket.Server.{ProcessClass, Server, at_key, put, found, ready, close, handle_ws}

-- What a callback leaves, and what it returns to mongoose.
abbrev pub Result : Type 0 → Type 0
Result P = Option (Server P × ℕ)

abbrev pub closed {ℓ} : {P : Type ℓ} {Q : Type ℓ} → Option (P × Q) → Option (Q × ℕ)
closed none = none
closed (some (p, s)) = some (s, 1)

-- _wsHandler, with MongooseServer::HandleWs: the first handler that gives a process for the context.
-- 1 turns the connection away.
unfoldable pub ws_handler : {C P : Type 0} → List (C → Option P) → ℕ → C → Server P → Server P × ℕ
unfolding handle_ws put
ws_handler handlers conn ctx s = elim (handle_ws handlers ctx) [
  | none ↦ (s, 1)
  | some p ↦ (record s { processes = put conn (some p) s.processes }, 0)
]

module _ {S : Type 0} (process_class : ProcessClass (Process × S)) where
  -- _wsReady
  unfoldable pub ws_ready : ℕ → Server (Process × S) → Server (Process × S)
  unfolding ready
  ws_ready conn s = ready process_class conn s

  -- MongooseServer::Close
  unfoldable pub ws_close : ℕ → Server (Process × S) → Option ((Process × S) × Server (Process × S))
  unfolding close
  ws_close conn s = close process_class conn s

  module _ (on_receive : Process.Delivery → S → S × Bool) where
    -- The end of _wsReceive: what OnReceiveFrame leaves.
    pub after_frame : ℕ → Server (Process × S) → Option (Process × S × Bool) → Result (Process × S)
    unfolding put
    after_frame conn s none = none
    after_frame conn s (some (p, t, b)) =
        some (record s { processes = put conn (some (p, t)) s.processes }, if b then 1 else 0)

    -- Whether the frame closes the connection.
    pub frame_case : Bool → Frame → ℕ → Server (Process × S) → Process → S → Result (Process × S)
    unfolding on_receive_frame after_frame close
    frame_case true frame conn s p t = closed (close process_class conn s)
    frame_case false frame conn s p t = after_frame conn s (on_receive_frame on_receive frame p t)

    -- _wsReceive, for a frame in memory that holds `info`. A frame with bit 3 closes the connection.
    unfoldable pub ws_receive :
        FrameInfo → ℕ → (bits : ℕ) → Bytes → ℕ → Server (Process × S) → Result (Process × S)
    unfolding at_key frame_case
    ws_receive info conn bits bytes length s = elim (found (at_key conn s.processes)) [
      | none ↦ none
      | some (p, t) ↦
          let frame = init info bits bytes length in
          frame_case (bit 3 (op_code frame.info) == 1) frame conn s p t
    ]
