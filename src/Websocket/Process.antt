-- ===== src/Websocket/Process.antt =====
-- src/websocket/websocketProcess.cc: WebsocketProcess, which collects frames and hands messages to
-- OnReceiveText and OnReceiveBinary. Those are virtual: a parameter, with the derived class's state.
pub mod Single
pub mod Collect
use rikitiki.Base.{
  ℕ, ◌%◌, Bool, true, false, List, [], ◌∷◌, Option, none, some, ◌==◌, if◌then◌else◌, Bytes,
}
use rikitiki.Websocket.Frame.{Frame, Message, bit, ingest, new_message}

-- Which of the two is called, with what.
pub data Delivery : Type 0 where
  text binary : Bytes → Delivery

pub record Process : Type 0 where
  pub ongoing_message : Option Message

-- WebsocketProcess::WebsocketProcess
abbrev pub new_process : Process
new_process = record { ongoing_message = none }

module _ {S : Type 0} (on_receive : Delivery → S → S × Bool) where
  -- WebsocketProcess::OnReceiveMessage: bit 0 for text, bit 1 for binary.
  unfoldable pub on_receive_message : Message → S → S × Bool
  on_receive_message m s =
      if bit 0 m.code == 1
      then on_receive (text m.content) s
      else if bit 1 m.code == 1
      then on_receive (binary m.content) s
      else (s, true)

  abbrev pub extend : Process → Frame → Option Message
  unfolding new_message
  extend p frame = elim p.ongoing_message [ none ↦ new_message frame | some m ↦ ingest frame m ]

  -- WebsocketProcess::OnReceiveFrame
  unfoldable pub on_receive_frame : Frame → Process → S → Option (Process × S × Bool)
  unfolding extend on_receive_message
  on_receive_frame frame p s = elim (extend p frame) [
    | none ↦ none
    | some m ↦
        if frame.info.is_finished
        then (let (s', b) = on_receive_message m s in
            some (record p { ongoing_message = none }, s', b))
        else some (record p { ongoing_message = some m }, s, true)
  ]

  -- Frames one after the other.
  unfoldable pub on_receive_frames : List Frame → Process → S → Option (Process × S × Bool)
  unfolding on_receive_frame
  on_receive_frames [] p s = some (p, s, true)
  on_receive_frames (f ∷ fs) p s = elim (on_receive_frame f p s) [
    | none ↦ none
    | some (p', s', b) ↦ on_receive_frames fs p' s'
  ]
