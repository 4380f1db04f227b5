-- ===== src/Websocket/OpCode.antt =====
-- include/rikitiki/websocket/websocketContext.h: the codes of frames.
use rikitiki.Base.{ℕ}

pub data OpCode : Type 0 where
  continuation text binary close ping pong final : OpCode

-- The enumeration's values.
abbrev pub code : OpCode → ℕ
code continuation = 0
code text = 1
code binary = 2
code close = 8
code ping = 9
code pong = 10
code final = 128
