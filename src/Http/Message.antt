-- ===== src/Http/Message.antt =====
-- src/http/Message.cc, include/rikitiki/http/Message.h: Message, whose operators and setters work on the
-- headers and the body that a derived class holds, and the printing of a message. The start line is
-- the derived class's. The two streams, narrow and wide, are one.
pub mod Setters
use rikitiki.Base.{List, [], ◌∷◌, ◌++◌, ℕ, Option, none, some, Bytes, codes}
use rikitiki.Base.StringMap.{StringMap, lookup}
use rikitiki.Http.Header.{Header, Cookie, HeaderCollection, Utf, add, set, set_size}
use rikitiki.Http.Encoding.{Encoding}
use rikitiki.Http.Encoding
use rikitiki.Http.ContentType.{ContentType}
use rikitiki.Http.ContentType

pub record Message : Type 0 where
  pub headers : HeaderCollection
  pub body : Bytes

-- Message::operator <<(const Header&)
unfoldable pub put_header : Header → Message → Message
unfolding add
put_header h m = record m { headers = add h.first h.second m.headers }

abbrev pub cookie_header : Cookie → Header
cookie_header c = record { first = codes "Set-Cookie"; second = c.first ++ (codes "=" ++ c.second) }

-- Message::operator <<(const Cookie&)
unfoldable pub put_cookie : Cookie → Message → Message
unfolding put_header
put_cookie c m = put_header (cookie_header c) m

-- Message::operator <<(const T&), for what a stream prints as the text.
abbrev pub put_text : Bytes → Message → Message
put_text s m = record m { body = m.body ++ s }

-- Message::ContentType, through FromString with its map of names, before and after.
unfoldable pub content_type : Message → StringMap ContentType → ContentType × StringMap ContentType
unfolding ContentType.read lookup
content_type m types = elim (lookup (codes "contenttype") m.headers) [
  | none ↦ (ContentType.text_html, types)
  | some v ↦ ContentType.read v types
]

module _ (utf : Utf) where
  -- Message::SetContentLength
  unfoldable pub set_content_length : ℕ → Message → Message
  unfolding set_size
  set_content_length n m = record m { headers = set_size utf (codes "Content-Length") n m.headers }

  -- Message::SetContentType, and operator <<(ContentType::t), which calls it
  unfoldable pub set_content_type : ContentType → Message → Message
  unfolding set ContentType.to_string
  set_content_type t m = record m {
    headers = set utf (codes "Content-Type") (ContentType.to_string t) m.headers;
  }

  -- Message::SetTransferEncoding: ToString of an encoding fails its assertion.
  unfoldable pub set_transfer_encoding : Encoding → Message → Option Message
  unfolding set Encoding.to_string
  set_transfer_encoding e m = elim (Encoding.to_string e) [
    | none ↦ none
    | some name ↦ some (record m { headers = set utf (codes "Transfer-Encoding") name m.headers })
  ]

-- A header as `<<` prints it, ended by std::endl.
abbrev pub printed_header : Bytes × Bytes → Bytes
printed_header h = h.0 ++ (codes ": " ++ (h.1 ++ codes "\n"))

abbrev pub printed_headers : HeaderCollection → Bytes
printed_headers [] = []
printed_headers (h ∷ hs) = printed_header h ++ printed_headers hs

-- operator <<(std::ostream&, const Message&)
unfoldable pub print : Bytes → Message → Bytes
print startline m =
    startline ++ (codes "\n" ++ (printed_headers m.headers ++ (codes "\n\n" ++ m.body)))
