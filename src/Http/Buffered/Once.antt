-- ===== src/Http/Buffered/Once.antt =====
-- src/http/helpers/bufferedMessageTypes.cc: what a buffered message tells after its headers change.
use rikitiki.Base.{ℕ, ◌≡◌, refl, Bool-cases, inl, inr}
use rikitiki.Http.ContentType.{ContentType}
use rikitiki.Http.Encoding.{Encoding}
use rikitiki.Http.Incoming.{content_length, transfer_encoding}
use rikitiki.Http.Message.{Message}
use rikitiki.Http.Buffered.{
  Buffered, get, BufferedMessage, get_length, set_length, get_encoding, set_encoding, new_buffered,
}

get-get :
    {T : Type 0} (first later : T) (b : Buffered T)
    → (get later (get first b).1).0 ≡ (get first b).0
unfolding get
get-get first later b = elim (Bool-cases b.is_in_buffer) [
  | inl kept ↦ rw kept refl
  | inr fresh ↦ rw fresh refl
]

abbrev pub with_message : Message → BufferedMessage → BufferedMessage
with_message m b = record b { message = m }

-- A buffered message tells the length and the encoding that it told before or that were set, whatever
-- its headers have become since; a new one tells those of its headers.
pub get_length-with_message :
    (b : BufferedMessage) (m : Message) (n : ℕ) (e : Encoding) (t : ContentType)
    → ((get_length (with_message m (get_length b).1)).0 ≡ (get_length b).0)
      × ((get_encoding (with_message m (get_encoding b).1)).0 ≡ (get_encoding b).0)
      × ((get_length (with_message m (set_length n b))).0 ≡ n)
      × ((get_encoding (with_message m (set_encoding e b))).0 ≡ e)
      × ((get_length (new_buffered m n e t)).0 ≡ content_length m.headers)
      × ((get_encoding (new_buffered m n e t)).0 ≡ transfer_encoding m.headers)
unfolding get_length get_encoding new_buffered
get_length-with_message b m n e t = (
  get-get (content_length b.message.headers) (content_length m.headers) b.length,
  get-get (transfer_encoding b.message.headers) (transfer_encoding m.headers) b.encoding,
  unfold get in refl,
  unfold get in refl,
  unfold get in refl,
  unfold get in refl,
)
