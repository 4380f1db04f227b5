-- ===== src/StaticContent.antt =====
-- src/StaticContentHandler.cc, include/rikitiki/StaticContentHandler.h: files under a directory, served for
-- the URIs with a prefix. The file system is a parameter: what a path that opens holds.
pub mod Root
use rikitiki.Base.StringMap.{StringMap, insert, get_or}
use rikitiki.Base.{
  ℕ, suc, Bool, true, false, ◌&&◌, List, [], ◌∷◌, ◌++◌, Option, none, some, leb, ◌==◌,
  if◌then◌else◌, Bytes, codes, c_str, length, drop, find, rfind_char,
}
use rikitiki.Http.ContentType
use rikitiki.Http.ContentType.{ContentType}

pub record StaticContentHandler : Type 0 where
  pub prefix : Bytes
  pub path : Bytes
  pub mime_types : StringMap Bytes

-- The assignments of the constructor.
abbrev mime_table : List (Bytes × Bytes)
mime_table =
    (codes "html", codes "text/html")
    ∷ (codes "htm", codes "text/html")
    ∷ (codes "js", codes "application/x-javascript")
    ∷ (codes "css", codes "text/css")
    ∷ (codes "ico", codes "image/x-icon")
    ∷ (codes "gif", codes "image/gif")
    ∷ (codes "jpg", codes "image/jpeg")
    ∷ (codes "jpeg", codes "image/jpeg")
    ∷ (codes "png", codes "image/png")
    ∷ (codes "svg", codes "image/svg+xml")
    ∷ (codes "txt", codes "text/plain")
    ∷ (codes "xml", codes "text/xml")
    ∷ (codes "json", codes "text/json")
    ∷ (codes "xslt", codes "application/xml")
    ∷ (codes "xsl", codes "application/xml")
    ∷ (codes "ra", codes "audio/x-pn-realaudio")
    ∷ (codes "doc", codes "application/msword")
    ∷ (codes "exe", codes "application/octet-stream")
    ∷ (codes "zip", codes "application/x-zip-compressed")
    ∷ (codes "xls", codes "application/excel")
    ∷ (codes "tgz", codes "application/x-tar-gz")
    ∷ (codes "tar", codes "application/x-tar")
    ∷ (codes "gz", codes "application/x-gunzip")
    ∷ (codes "arj", codes "application/x-arj-compressed")
    ∷ (codes "rar", codes "application/x-arj-compressed")
    ∷ (codes "rtf", codes "application/rtf")
    ∷ (codes "pdf", codes "application/pdf")
    ∷ (codes "swf", codes "application/x-shockwave-flash")
    ∷ (codes "mpg", codes "video/mpeg")
    ∷ (codes "webm", codes "video/webm")
    ∷ (codes "mpeg", codes "video/mpeg")
    ∷ (codes "mp4", codes "video/mp4")
    ∷ (codes "m4v", codes "video/x-m4v")
    ∷ (codes "asf", codes "video/x-ms-asf")
    ∷ (codes "avi", codes "video/x-msvideo")
    ∷ (codes "bmp", codes "image/bmp")
    ∷ []

assign_all : List (Bytes × Bytes) → StringMap Bytes → StringMap Bytes
assign_all [] m = m
assign_all ((ext, mime) ∷ rest) m = assign_all rest (insert ext mime m)

-- The constructor.
unfoldable pub new_handler : Bytes → Bytes → StaticContentHandler
unfolding assign_all
new_handler prefix path = record {
  prefix = prefix;
  path = path;
  mime_types = assign_all mime_table [];
}

abbrev pub is_zero : Option ℕ → Bool
is_zero none = false
is_zero (some n) = n == 0

-- StaticContentHandler::CanHandle, on the URI.
unfoldable pub can_handle : StaticContentHandler → Bytes → Bool
can_handle h uri =
    let path = c_str uri in
    elim (find (codes "..") path) [
      | some i ↦ false
      | none ↦ leb (length h.prefix) (length path) && is_zero (find h.prefix path)
    ]

-- The text behind the prefix.
abbrev pub relative_path : StaticContentHandler → Bytes → Bytes
relative_path h uri = drop (length h.prefix) (c_str uri)

-- The type of an extension, and the table afterwards: one that is not in it gets the empty text.
abbrev pub mime_of : StaticContentHandler → Bytes → Bytes × StringMap Bytes
mime_of h rel = elim (rfind_char b'.' rel) [
  | none ↦ (codes "text/html", h.mime_types)
  | some i ↦
      let ext = drop (suc i) rel in
      let mime = get_or ext [] h.mime_types in (mime, insert ext mime h.mime_types)
]

-- What Handle does: the path that it opens, the Content-Type that it writes, the payload where the path
-- opens, and the two tables afterwards. The context is marked as handled in any case.
pub record Served : Type 0 where
  pub opened : Bytes
  pub content_type : ContentType
  pub payload : Option Bytes
  pub handler : StaticContentHandler
  pub types : StringMap ContentType

-- StaticContentHandler::Handle. Its result is whether there is a payload.
unfoldable pub handle :
    (Bytes → Option Bytes) → StaticContentHandler → StringMap ContentType → Bytes → Served
handle files h types uri =
    let rel = relative_path h uri in
    let (mime, mime_types) = mime_of h rel in
    let (content_type, types') = ContentType.from_string mime types in
    record {
      opened = h.path ++ rel;
      content_type = content_type;
      payload = files (h.path ++ rel);
      handler = record h { mime_types = mime_types };
      types = types';
    }
