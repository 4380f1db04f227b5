-- ===== src/Tests/Messages.antt =====
-- Messages read in pieces, and responses written.
use rikitiki.Base.{All, true, false, [], ◌∷◌, ◌++◌, ◌≡◌, refl, arith, Bytes, codes, isspace}
use rikitiki.Http.Header.{Header}
use rikitiki.Base.Decimal.{decimal}
use rikitiki.Http.Status
use rikitiki.Http.Status.{HttpStatus, start_string}
use rikitiki.Http.Parsing
use rikitiki.Http.Parsing.Reader.{Reader, new_reader, returned, find_newline}
use rikitiki.Http.Parsing.Reader.Fuel.{IsDone}
use rikitiki.Http.Incoming.{IMessage, new_message, message_data}
use rikitiki.Http.Incoming.Client.{message_data-IsDone, message_data-append}
use rikitiki.Http.Response.{set_startline}
use rikitiki.Http.Outgoing.{Writer, ok}
use rikitiki.Http.Incoming.Chunks.{IsChunkLine, message_data-lines}
use rikitiki.Http.Parsing.Reader.Line.{at_line}
use rikitiki.Http.Response.StartLine.{IsReason}
use rikitiki.Http.Outgoing.Reading.{IsPlainHeader, at_end}
use rikitiki.Http.Outgoing.RoundTrip.{received, message_data-respond}
use rikitiki.Http.Outgoing.Output.{respond, respond-output}

abbrev fresh : IMessage HttpStatus
fresh = record {
  stream_state = Parsing.start_line;
  body_type = Parsing.BodyType.unknown;
  start = Status.not_found;
  header_map = [];
  content = [];
  is_bad = false;
}

abbrev pub host : Header
host = record { first = codes "Server"; second = codes "rikitiki" }

respond-output_example :
    (w : Writer) × (respond Status.ok (host ∷ []) (codes "Hel" ∷ codes "lo" ∷ []) ≡ ok w)
    × (w.output ≡ codes "HTTP/1.1 200 OK\r\nServer: rikitiki\r\nContent-Length: 5\r\n\r\nHello")
respond-output_example =
    unfold decimal start_string in
    respond-output Status.ok (host ∷ []) (codes "Hel" ∷ codes "lo" ∷ [])

message_data-IsDone_example :
    IsDone (message_data set_startline new_reader fresh (codes "HTTP/1.1 200 OK\r\n\r\n") [])
message_data-IsDone_example =
    message_data-IsDone set_startline new_reader fresh (codes "HTTP/1.1 200 OK\r\n\r\n")
      (unfold new_reader in tt) (unfold new_reader in omega arith)

-- The first piece ends within a header, the second with the header's line.
abbrev first_piece : Bytes
first_piece = codes "HTTP/1.1 200 OK\r\nServer: riki"

abbrev second_piece : Bytes
second_piece = codes "tiki\r\nConte"

abbrev between : IMessage HttpStatus
between = record fresh {
  stream_state = Parsing.headers;
  start = record { status = 200; name = codes "OK"; managed = false };
}

abbrev held : Reader
held = record {
  mode = Parsing.BufferMode.newline;
  expected_size = 17;
  buffer = codes "Server: riki";
}

first_read :
    message_data set_startline new_reader fresh first_piece [] ≡ returned false held between
unfolding message_data new_reader set_startline find_newline
first_read = refl

message_data-append_example :
    message_data set_startline new_reader fresh (first_piece ++ second_piece) []
    ≡ message_data set_startline held between second_piece []
message_data-append_example =
    message_data-append set_startline new_reader fresh first_piece second_piece held between
      (unfold new_reader in tt) (unfold new_reader in omega arith) (omega arith) (λ e. cc e) refl
      first_read

pub status_ok : IsReason (codes "OK")
status_ok = record { no_nul = omega arith; trimmed = unfold isspace in refl; not_empty = λ e. cc e }

pub host_plain : IsPlainHeader host
host_plain = (
  record {
    name = unfold isspace in ground arith;
    value = (ground arith, refl);
    named = λ e. cc e;
    name_text = omega arith;
    value_text = omega arith;
  },
  λ e. cc e,
  λ e. cc e,
)

message_data-respond_example :
    (w : Writer) × (respond Status.ok (host ∷ []) (codes "Hel" ∷ codes "lo" ∷ []) ≡ ok w)
    × (message_data set_startline new_reader (new_message Status.not_found) w.output []
        ≡ returned true at_end (received Status.ok (host ∷ []) (codes "Hello")))
message_data-respond_example =
    unfold decimal start_string in
    message_data-respond Status.not_found Status.ok (host ∷ []) (codes "Hel" ∷ codes "lo" ∷ [])
      (omega arith) status_ok (ground arith) (host_plain, tt) (omega arith)

-- A body in two chunks, as RFC 7230 delimits them: 5 bytes, and the end.
abbrev in_chunks : IMessage HttpStatus
in_chunks = record fresh { stream_state = Parsing.body; body_type = Parsing.BodyType.chunked }

chunks-IsChunkLine : All IsChunkLine (codes "5" ∷ codes "Hello" ∷ codes "0" ∷ [])
chunks-IsChunkLine =
    ((ground arith, λ e. cc e), ((ground arith, λ e. cc e), ((ground arith, λ e. cc e), tt)))

message_data-lines_example :
    message_data set_startline (at_line 0) in_chunks (codes "5\r\nHello\r\n0\r\n\r\n") []
    ≡ returned true
        (at_line 2)
        (record in_chunks { stream_state = Parsing.finished; content = codes "5Hello0" })
message_data-lines_example =
    message_data-lines set_startline (codes "5" ∷ codes "Hello" ∷ codes "0" ∷ []) 0 in_chunks refl
      refl refl chunks-IsChunkLine (omega arith)
