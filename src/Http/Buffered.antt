-- ===== src/Http/Buffered.antt =====
-- src/http/helpers/bufferedMessageTypes.cc, include/rikitiki/http/helpers/bufferedMessageTypes.h: values
-- that are computed at their first use. BufferedMessage keeps three of a message's values so; the
-- message below is what its Headers give.
pub mod Once
use rikitiki.Base.{ℕ, Bool, true, false, List, Option, none, some, Bytes, codes, if◌then◌else◌}
use rikitiki.Base.StringMap.{StringMap}
use rikitiki.Http.ContentType.{ContentType}
use rikitiki.Http.Encoding.{Encoding}
use rikitiki.Http.Header.{get_list}
use rikitiki.Http.Incoming.{content_length, transfer_encoding}
use rikitiki.Http.Message
use rikitiki.Http.Message.{Message}

pub record Buffered (T : Type 0) : Type 0 where
  pub is_in_buffer : Bool
  pub value : T

module _ {T : Type 0} where
  -- Buffered_::Get: the value, and what is kept; `fill` is what Fill sets.
  unfoldable pub get : T → Buffered T → T × Buffered T
  get fill b =
      if b.is_in_buffer then (b.value, b) else (fill, record { is_in_buffer = true; value = fill })

  -- The setter of BufferMember.
  abbrev pub set : T → Buffered T → Buffered T
  set v b = record { is_in_buffer = true; value = v }

-- BufferedMessage: its message, and the values that it keeps.
pub record BufferedMessage : Type 0 where
  pub message : Message
  pub length : Buffered ℕ
  pub encoding : Buffered Encoding
  pub type : Buffered ContentType

abbrev not_yet : {T : Type 0} → T → Buffered T
not_yet v = record { is_in_buffer = false; value = v }

-- A new one; the values are not initialised.
unfoldable pub new_buffered : Message → ℕ → Encoding → ContentType → BufferedMessage
new_buffered m length encoding type = record {
  message = m;
  length = not_yet length;
  encoding = not_yet encoding;
  type = not_yet type;
}

-- ContentLength and FillContentLength
unfoldable pub get_length : BufferedMessage → ℕ × BufferedMessage
unfolding get
get_length b =
    let (n, kept) = get (content_length b.message.headers) b.length in
    (n, record b { length = kept })

-- SetContentLength
abbrev pub set_length : ℕ → BufferedMessage → BufferedMessage
set_length n b = record b { length = set n b.length }

-- TransferEncoding and FillTransferEncoding
unfoldable pub get_encoding : BufferedMessage → Encoding × BufferedMessage
unfolding get
get_encoding b =
    let (e, kept) = get (transfer_encoding b.message.headers) b.encoding in
    (e, record b { encoding = kept })

-- SetTransferEncoding
abbrev pub set_encoding : Encoding → BufferedMessage → BufferedMessage
set_encoding e b = record b { encoding = set e b.encoding }

-- ContentType and FillContentType, with the names that FromString knows.
unfoldable pub get_type :
    BufferedMessage → StringMap ContentType → ContentType × StringMap ContentType × BufferedMessage
unfolding Message.content_type get
get_type b types =
    let (filled, types') = Message.content_type b.message types in
    let (t, kept) = get filled b.type in
    (t, if b.type.is_in_buffer then types else types', record b { type = kept })

-- SetContentType
abbrev pub set_type : ContentType → BufferedMessage → BufferedMessage
set_type t b = record b { type = set t b.type }

-- FillCookies: each entry is given to a constructor of Cookie that fails its assertion; a list that
-- is not there leaves the collection as it was.
abbrev made_cookies : Option (List Bytes) → Option (List (Bytes × Bytes))
made_cookies none = none
made_cookies (some List.[]) = some List.[]
made_cookies (some (List.◌∷◌ c cs)) = none

unfoldable pub fill_cookies : Message → Option (List (Bytes × Bytes))
unfolding get_list
fill_cookies m = made_cookies (get_list (codes "Set-Cookie") m.headers)
