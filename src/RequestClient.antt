-- ===== src/RequestClient.antt =====
-- src/http/helpers/SimpleRequestClient.cc, include/rikitiki/http/helpers/SimpleRequestClient.h: a client
-- that sends a request through a socket and fulfils a promise with the response. The socket's Send is
-- a parameter with its state; a class derived from Request gives the start line.
pub mod Sent
pub mod Exchange
use rikitiki.Base.{ℕ, Bool, List, [], ◌∷◌, ◌++◌, Option, none, some, Bytes, codes, c_str}
use rikitiki.Http.Header.{Utf, HeaderCollection}
use rikitiki.Http.Incoming.{IMessage, message_data, new_message}
use rikitiki.Http.Message.{Message}
use rikitiki.Http.Parsing.Reader.{Reader, Outcome, returned, threw, out_of_fuel, new_reader}
use rikitiki.Http.Response.{new_status, set_startline}
use rikitiki.Http.Status.{HttpStatus}

-- Socket::Send(const std::string&)
abbrev pub send_text : {S : Type 0} → (Bytes → S → S) → Bytes → S → S
send_text send s socket = send s socket

-- `host` is a wide text.
pub record Client (S : Type 0) : Type 0 where
  pub host : List ℕ
  pub reader : Reader
  pub response : IMessage HttpStatus
  pub socket : S
  pub promise : Option (IMessage HttpStatus)

-- SimpleRequestClient::SimpleRequestClient, with the socket that CreateTCPIPSocket gives.
unfoldable pub new_client : {S : Type 0} → List ℕ → S → Client S
unfolding new_reader new_message
new_client host socket = record {
  host = host;
  reader = new_reader;
  response = new_message new_status;
  socket = socket;
  promise = none;
}

-- A header as MakeRequest prints it. rikitiki's operator for std::string prints up to a NUL.
abbrev pub sent_header : Bytes × Bytes → Bytes
sent_header h = c_str h.0 ++ (codes ": " ++ (c_str h.1 ++ codes "\n"))

abbrev pub sent_headers : HeaderCollection → Bytes
sent_headers [] = []
sent_headers (h ∷ hs) = sent_header h ++ sent_headers hs

-- The text that MakeRequest sends, the start line, the headers and the body each up to a NUL.
unfoldable pub request_text : Utf → Bytes → List ℕ → Message → Bytes
request_text utf startline host m =
    c_str startline
    ++ (codes "\n"
        ++ (codes "Host: "
            ++ (utf.narrow host
                ++ (codes "\n" ++ (sent_headers m.headers ++ (codes "\n" ++ c_str m.body))))))

module _ {S : Type 0} (send : Bytes → S → S) where
  -- SimpleRequestClient::MakeRequest
  unfoldable pub make_request : Utf → Bytes → Message → Client S → Client S
  unfolding request_text
  make_request utf startline m c = record c {
    socket = send (request_text utf startline c.host m) c.socket;
  }

module _ {S : Type 0} where
  -- SimpleRequestClient::OnData, through Socket::OnData; `none` where it throws.
  after_data : Client S → Outcome (IMessage HttpStatus) → Option (Client S × Bool)
  after_data c (returned finished r m) = some (record c { reader = r; response = m }, finished)
  after_data c threw = none
  after_data c out_of_fuel = none

  unfoldable pub on_data : Client S → (d after : Bytes) → Option (Client S × Bool)
  unfolding after_data message_data
  on_data c d after = after_data c (message_data set_startline c.reader c.response d after)

  -- SimpleRequestClient::OnClose, through Socket::OnClose: a promise that has its value throws.
  unfoldable pub on_close : Client S → Option (Client S)
  on_close c = elim c.promise [
    | none ↦ some (record c { promise = some c.response })
    | some m ↦ none
  ]
