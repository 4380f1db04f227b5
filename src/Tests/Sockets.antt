-- ===== src/Tests/Sockets.antt =====
-- Frames written and received, and connections closed.
use rikitiki.Base.{
  ℕ, suc, ◌+◌, Bool, true, false, [], ◌∷◌, none, some, ◌≡◌, refl, arith, Bytes, codes, map,
}
use rikitiki.Websocket.OpCode.{OpCode}
use rikitiki.Websocket.Write.{write}
use rikitiki.Websocket.Write.Total.{Ends, write-Ends}
use rikitiki.Websocket.Receiver.{IsMessage}
use rikitiki.Websocket.Rfc.{accept, write-IsMessage}
use rikitiki.Websocket.Frame.{FrameInfo}
use rikitiki.Websocket.Process.{
  Process, Delivery, new_process, on_receive_message, on_receive_frame, on_receive_frames,
}
use rikitiki.Websocket.Process
use rikitiki.Websocket.Process.Single.{IsOutcome, on_receive_frame-IsOutcome}
use rikitiki.Websocket.Process.Collect.{whole, on_receive_frames-collects}
use rikitiki.Websocket.Server.{ProcessClass, Server, at_key, close, handle_ws, add_ws_handler}
use rikitiki.Websocket.Server.Table.{IsTable, close-close, handle_ws-add_ws_handler}

write_hello :
    write accept (λ out. out) (codes "Hello") OpCode.text [] ≡ some (129 ∷ 5 ∷ codes "Hello")
unfolding write
write_hello = refl

write-IsMessage_example :
    (wire : Bytes) × (write accept (λ out. out) (codes "Hello") OpCode.text [] ≡ some wire)
    × IsMessage 1 (codes "Hello") wire
write-IsMessage_example = write-IsMessage (λ out. out) OpCode.text (codes "Hello") [] tt (λ e. cc e)

-- A socket that is closed from the start.
abbrev refuse : ℕ → Bytes → ℕ × Bool
refuse n bytes = (n, false)

write-Ends_example : Ends (write refuse suc (codes "Hello") OpCode.text 0)
write-Ends_example = write-Ends refuse suc (codes "Hello") OpCode.text 0

-- The bytes of the last text received.
abbrev record_text : Delivery → Bytes → Bytes × Bool
record_text (Process.text t) s = (t, true)
record_text (Process.binary t) s = (s, true)

abbrev fresh_info : FrameInfo
fresh_info = record { opcode = 0; size = 0; is_masked = false; is_finished = false; mask = 0 }

-- A frame with the first byte 0x89.
on_receive_frame-IsOutcome_example :
    IsOutcome record_text 137 (codes "hi") 2 [] none new_process (codes "hi") true
on_receive_frame-IsOutcome_example =
    on_receive_frame-IsOutcome record_text fresh_info 137 (codes "hi") 2 new_process new_process []
      (codes "hi") true tt (unfold on_receive_frame in refl)

-- Two frames with the first byte 0x81, of final text.
on_receive_frames-collects_example :
    on_receive_frames record_text
      (map (whole fresh_info 129) (codes "Hel" ∷ codes "lo" ∷ []))
      new_process
      []
    ≡ some (
      record {
        ongoing_message = some (record { code = 129; content = codes "Hello"; frame_length = 2 });
      },
      [],
      true,
    )
on_receive_frames-collects_example =
    on_receive_frames-collects record_text fresh_info 129 (codes "Hel") (codes "lo" ∷ []) [] refl

abbrev counting : ProcessClass ℕ
counting = record { on_ready = λ n. n; on_close = suc }

abbrev two_open : Server ℕ
two_open = record { processes = (3, some 0) ∷ (5, some 7) ∷ [] }

abbrev one_open : Server ℕ
one_open = record { processes = (5, some 7) ∷ [] }

close-close_example :
    (IsTable one_open.processes)
    × (at_key 5 one_open.processes ≡ at_key 5 two_open.processes)
    × (close counting 3 one_open ≡ none)
close-close_example =
    close-close counting 3 5 two_open one_open 1 (omega arith) (omega arith) (unfold close in refl)

added_handler_taken : handle_ws (add_ws_handler (λ n. some (n + 1)) ((λ n. none) ∷ [])) 4 ≡ some 5
added_handler_taken =
    unfold handle_ws in handle_ws-add_ws_handler (λ n. some (n + 1)) ((λ n. none) ∷ []) 4
