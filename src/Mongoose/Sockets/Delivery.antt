-- ===== src/Mongoose/Sockets/Delivery.antt =====
-- src/mongoose/server.cc: which frames reach a process through the callbacks.
use rikitiki.Base.{
  ℕ, ◌-◌, ◌*◌, ◌%◌, Bool, true, false, Option, none, some, ◌==◌, ◌≡◌, ◌≢◌, refl, sym, ap, subst,
  not, ne→==, ==_refl, ◌∙◌, arith, Bytes, Option-cases, inl, inr,
}
use rikitiki.Websocket.Frame.{FrameInfo, bit, op_code, init, Frame}
use rikitiki.Websocket.Process
use rikitiki.Websocket.Process.{Process, on_receive_frame, extend}
use rikitiki.Websocket.Server.{ProcessClass, Server, at_key, put, erase, found, close}
use rikitiki.Websocket.Server.Table.{
  IsTable, put-IsTable, at_key-put, close_processes, erase-IsTable, at_key-erase,
  at_key-erase_other,
}
use rikitiki.Mongoose.Sockets.{ws_receive, after_frame, frame_case, closed}

-- Bit 3 is the same before and after Init.
op_code-init : (b : ℕ) → bit 3 ((b % 256 - 16 * bit 4 b) % 256) ≡ bit 3 b
op_code-init b = omega arith

module _ {S : Type 0} (f g : Process.Delivery → S → S × Bool) where
  unfinished :
      (frame : Frame) (p : Process) (t : S)
      → frame.info.is_finished ≡ false
      → on_receive_frame f frame p t ≡ on_receive_frame g frame p t
  unfolding on_receive_frame
  unfinished frame p t h = elim (Option-cases (extend f p frame)) [
    | inl refused ↦ rw (refused, on_receive_frame) refl
    | inr (m, extended) ↦ rw (extended, h, on_receive_frame) refl
  ]

  module _ (process_class : ProcessClass (Process × S)) where
    after_frame_same :
        (conn : ℕ) (s : Server (Process × S)) (o : Option (Process × S × Bool))
        → after_frame process_class f conn s o ≡ after_frame process_class g conn s o
    unfolding after_frame
    after_frame_same conn s none = refl
    after_frame_same conn s (some (p, t, b)) = refl

    frame_case_same :
        (b : Bool) (frame : Frame) (conn : ℕ) (s : Server (Process × S)) (p : Process) (t : S)
        → b ≡ frame.info.is_finished
        → frame_case process_class f b frame conn s p t
          ≡ frame_case process_class g b frame conn s p t
    unfolding frame_case
    frame_case_same true frame conn s p t h = refl
    frame_case_same false frame conn s p t h =
        ap (after_frame process_class f conn s) (unfinished frame p t (sym h))
        ∙ after_frame_same conn s (on_receive_frame g frame p t)

    -- What _wsReceive does does not depend on what OnReceiveText and OnReceiveBinary would do with a
    -- message: none is ever handed to them, since the frames that OnReceiveFrame takes for final ones
    -- are those that close the connection.
    pub ws_receive_same :
        (info : FrameInfo) (conn bits : ℕ) (bytes : Bytes) (length : ℕ) (s : Server (Process × S))
        → ws_receive process_class f info conn bits bytes length s
          ≡ ws_receive process_class g info conn bits bytes length s
    unfolding ws_receive
    ws_receive_same info conn bits bytes length s =
        elim (Option-cases (found (at_key conn s.processes))) [
          | inl missing ↦ rw (missing, ws_receive) refl
          | inr ((p, t), there) ↦
              rw (there, ws_receive)
                (frame_case_same _ (init info bits bytes length) conn s p t
                  (ap (λ n. n == 1) (op_code-init bits)))
        ]

abbrev pub has_process {ℓ} : {V : Type ℓ} → Option (Option V) → Bool
has_process none = false
has_process (some none) = false
has_process (some (some v)) = true

module _ {S : Type 0} (process_class : ProcessClass (Process × S))
    (on_receive : Process.Delivery → S → S × Bool) where
  -- What a table keeps when one connection's entry is changed.
  abbrev Keeps : ℕ → ℕ → Server (Process × S) → Server (Process × S) → Type 0
  Keeps conn other s s' =
      IsTable s'.processes × (at_key other s'.processes ≡ at_key other s.processes)

  after_frame-Keeps :
      (conn other : ℕ) (s s' : Server (Process × S)) (o : Option (Process × S × Bool)) (r : ℕ)
      → IsTable s.processes
      → other ≢ conn
      → after_frame process_class on_receive conn s o ≡ some (s', r)
      → Keeps conn other s s' × (has_process (at_key conn s'.processes) ≡ true)
  unfolding after_frame
  after_frame-Keeps conn other s s' none r table ne e = cc
  after_frame-Keeps conn other s s' (some (p, t, b)) r table ne e =
      let same : record s { processes = put conn (some (p, t)) s.processes } ≡ s' = cc in
      subst (λ u. Keeps conn other s u × (has_process (at_key conn u.processes) ≡ true)) same
        (
          (
            put-IsTable conn (some (p, t)) s.processes table,
            at_key-put other conn (some (p, t)) s.processes ∙ rw (ne→== other conn ne) refl,
          ),
          rw (at_key-put conn conn (some (p, t)) s.processes, ==_refl conn) refl,
        )

  close-Keeps :
      (conn other : ℕ) (s s' : Server (Process × S))
      (o : Option ((Process × S) × Server (Process × S))) (r : ℕ)
      → IsTable s.processes
      → other ≢ conn
      → close process_class conn s ≡ o
      → closed o ≡ some (s', r)
      → Keeps conn other s s' × (has_process (at_key conn s'.processes) ≡ false)
  close-Keeps conn other s s' none r table ne c e = cc
  close-Keeps conn other s s' (some (p, u)) r table ne c e =
      let same : u ≡ s' = cc in
      let left : s'.processes ≡ erase conn s.processes =
        ap (λ v. v.processes) (sym same) ∙ close_processes process_class conn s u p c in
      rw left (
        (erase-IsTable conn s.processes table, at_key-erase_other other conn s.processes ne),
        ap has_process (at_key-erase conn s.processes table),
      )

  frame_case-Keeps :
      (b : Bool) (frame : Frame) (conn other : ℕ) (s s' : Server (Process × S)) (p : Process)
      (t : S) (r : ℕ)
      → IsTable s.processes
      → other ≢ conn
      → frame_case process_class on_receive b frame conn s p t ≡ some (s', r)
      → Keeps conn other s s' × (has_process (at_key conn s'.processes) ≡ not b)
  unfolding frame_case
  frame_case-Keeps true frame conn other s s' p t r table ne e =
      close-Keeps conn other s s' (close process_class conn s) r table ne refl e
  frame_case-Keeps false frame conn other s s' p t r table ne e =
      after_frame-Keeps conn other s s' _ r table ne e

  -- Where _wsReceive returns, the table's keys are in order as before, every other connection has the
  -- process that it had, and the frame's own connection has a process exactly when bit 3 of the
  -- frame's first byte is clear.
  pub ws_receive-IsTable :
      (info : FrameInfo) (conn other bits : ℕ) (bytes : Bytes) (length r : ℕ)
      (s s' : Server (Process × S))
      → IsTable s.processes
      → other ≢ conn
      → ws_receive process_class on_receive info conn bits bytes length s ≡ some (s', r)
      → IsTable s'.processes
        × (at_key other s'.processes ≡ at_key other s.processes)
        × (has_process (at_key conn s'.processes) ≡ not (bit 3 bits == 1))
  unfolding ws_receive
  ws_receive-IsTable info conn other bits bytes length r s s' table ne e =
      elim (Option-cases (found (at_key conn s.processes))) [
        | inl missing ↦
            let fails : ws_receive process_class on_receive info conn bits bytes length s ≡ none =
              rw (missing, ws_receive) refl in
            cc fails
        | inr ((p, t), there) ↦
            let frame = init info bits bytes length in
            let step : ws_receive process_class on_receive info conn bits bytes length s
                ≡ frame_case process_class on_receive (bit 3 (op_code frame.info) == 1) frame conn s
                    p t =
              rw (there, ws_receive) refl in
            let (keeps, own) =
              frame_case-Keeps _ frame conn other s s' p t r table ne (sym step ∙ e) in
            (keeps.0, keeps.1, own ∙ ap (λ n. not (n == 1)) (op_code-init bits))
      ]
