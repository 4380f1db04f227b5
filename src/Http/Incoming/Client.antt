-- ===== src/Http/Incoming/Client.antt =====
-- src/http/incoming/Message.cc: IMessage as a class that BufferedReader drives.
use rikitiki.Base.{
  HasNoNul, ◌+◌, ◌<◌, Bool, false, [], ◌∷◌, ◌++◌, Option, some, ◌≡◌, ◌≢◌, refl, sym, ap, subst, ◌∙◌,
  arith, Bytes, length, length-append, append_assoc, append-nil,
}
use rikitiki.Http.Parsing.{
  MessageState, start_line, headers, body, finished, BodyType, known_size, chunked, BufferMode,
  size_max,
}
use rikitiki.Http.Parsing.Reader.{Reader, returned}
use rikitiki.Http.Parsing.Reader.Fuel.{LineClient, IsDone, on_data-IsDone}
use rikitiki.Http.Parsing.Reader.Round.{StreamClient}
use rikitiki.Http.Parsing.Reader.Cut.{IsCut}
use rikitiki.Http.Parsing.Reader.Split.{on_data-append}
use rikitiki.Http.Incoming.Lines.{Inv, state_read-Inv}
use rikitiki.Http.Incoming.{
  message_data, IMessage, headers_end, header_read, chunk_read, sized_read, body_read, start_read,
  state_read, on_buffered,
}

module _ {A : Type 0} (set_startline : A → Bytes → Option A) where
  abbrev pub line_client : LineClient (on_buffered set_startline)
  unfolding on_buffered
  line_client = record {
    Inv = Inv;
    never_length = λ s h. h;
    keeps =
        λ r s d inv line e. state_read-Inv set_startline s.stream_state r _ s _ d refl line inv e;
  }

  body_read-buffer :
      (t : BodyType) (r r' : Reader) (m m' : IMessage A) (d : Bytes) (b : Bool)
      → body_read t r m d ≡ some (r', m', b)
      → r'.buffer ≡ r.buffer
  unfolding body_read chunk_read sized_read
  body_read-buffer chunked r r' m m' d b e = ground arith
  body_read-buffer known_size r r' m m' [] b e = ground arith
  body_read-buffer known_size r r' m m' (c ∷ cs) b e = ground arith
  body_read-buffer BodyType.none r r' m m' d b e = ground arith
  body_read-buffer BodyType.buffering r r' m m' d b e = ground arith
  body_read-buffer BodyType.unknown r r' m m' d b e = ground arith

  pub state_read-buffer :
      (t : MessageState) (r r' : Reader) (m m' : IMessage A) (d : Bytes) (b : Bool)
      → state_read set_startline t r m d ≡ some (r', m', b)
      → r'.buffer ≡ r.buffer
  unfolding state_read
  state_read-buffer start_line r r' m m' d b e = unfold start_read in ground arith
  state_read-buffer headers r r' m m' d b e = unfold headers_end header_read in ground arith
  state_read-buffer body r r' m m' d b e = body_read-buffer m.body_type r r' m m' d b e
  state_read-buffer finished r r' m m' d b e = cc
  state_read-buffer MessageState.unknown r r' m m' d b e = ground arith

  sized_read-additive :
      (r r' : Reader) (m m' : IMessage A) (a b : Bytes)
      → m.stream_state ≡ body
      → sized_read r m a ≡ some (r', m', false)
      → r.mode ≡ BufferMode.none
      → (r'.mode ≡ BufferMode.none) × (sized_read r m (a ++ b) ≡ sized_read r' m' b)
  unfolding sized_read
  sized_read-additive r r' m m' [] b s e n =
      let same : (r' ≡ r) × (m' ≡ m) = ground arith in rw (same.0, same.1) (n, refl)
  sized_read-additive r r' m m' (c ∷ cs) [] s e n = (ground arith, ground (arith, append-nil cs))
  sized_read-additive r r' m m' (c ∷ cs) (x ∷ xs) s e n = (
    ground arith,
    ground (arith, length-append (c ∷ cs) (x ∷ xs), append_assoc m.content (c ∷ cs) (x ∷ xs)),
  )

  -- A piece of the body that does not end it leaves the parser where it was.
  body_read-state :
      (t : BodyType) (r r' : Reader) (m m' : IMessage A) (a : Bytes)
      → m.stream_state ≡ body
      → m.body_type ≡ t
      → t ≢ chunked
      → body_read t r m a ≡ some (r', m', false)
      → (m'.stream_state ≡ body) × (m'.body_type ≡ t)
  unfolding body_read sized_read
  body_read-state chunked r r' m m' a s k ne e = absurd (ne refl)
  body_read-state known_size r r' m m' [] s k ne e = ground arith
  body_read-state known_size r r' m m' (c ∷ cs) s k ne e = ground arith
  body_read-state BodyType.none r r' m m' a s k ne e = ground arith
  body_read-state BodyType.buffering r r' m m' a s k ne e = ground arith
  body_read-state BodyType.unknown r r' m m' a s k ne e = ground arith

  body_read-additive :
      (t : BodyType) (r r' : Reader) (m m' : IMessage A) (a b : Bytes)
      → m.stream_state ≡ body
      → t ≢ chunked
      → r.mode ≡ BufferMode.none
      → body_read t r m a ≡ some (r', m', false)
      → (r'.mode ≡ BufferMode.none) × (body_read t r m (a ++ b) ≡ body_read t r' m' b)
  unfolding body_read
  body_read-additive chunked r r' m m' a b s ne n e = absurd (ne refl)
  body_read-additive known_size r r' m m' a b s ne n e = sized_read-additive r r' m m' a b s e n
  body_read-additive BodyType.none r r' m m' a b s ne n e =
      let same : (r' ≡ r) × (m' ≡ m) = (cc, cc) in rw (same.0, same.1) (n, refl)
  body_read-additive BodyType.buffering r r' m m' a b s ne n e =
      (ground arith, ground (arith, append_assoc m.content a b))
  body_read-additive BodyType.unknown r r' m m' a b s ne n e =
      (ground arith, ground (arith, append_assoc m.content a b))

  -- In the body, what OnBufferedData does.
  on_buffered_body :
      (t : BodyType) (r : Reader) (m : IMessage A) (d : Bytes)
      → m.stream_state ≡ body
      → m.body_type ≡ t
      → on_buffered set_startline r m d ≡ body_read t r m d
  unfolding on_buffered state_read
  on_buffered_body t r m d s k =
      ap (λ z. state_read set_startline z r m d) s ∙ ap (λ z. body_read z r m d) k

  pub on_buffered-additive :
      (r r' : Reader) (m m' : IMessage A) (a b : Bytes)
      → (m.stream_state ≡ body) × (m.body_type ≢ chunked)
      → r.mode ≡ BufferMode.none
      → on_buffered set_startline r m a ≡ some (r', m', false)
      → (r'.mode ≡ BufferMode.none)
        × (on_buffered set_startline r m (a ++ b) ≡ on_buffered set_startline r' m' b)
  on_buffered-additive r r' m m' a b (s, ne) n e =
      let t = m.body_type in
      let read = sym (on_buffered_body t r m a s refl) ∙ e in
      let (s', k') = body_read-state t r r' m m' a s refl ne read in
      let (n', same) = body_read-additive t r r' m m' a b s ne n read in
      (n', on_buffered_body t r m (a ++ b) s refl ∙ same ∙ sym (on_buffered_body t r' m' b s' k'))

  abbrev pub stream_client : StreamClient (on_buffered set_startline)
  unfolding line_client on_buffered
  stream_client = record {
    line = line_client;
    buffer_kept = λ r s d e. state_read-buffer s.stream_state r _ s _ d _ e;
    additive = λ r s a b inv n e. on_buffered-additive r _ s _ a b (subst (λ z. Inv z s) n inv) n e;
  }

  -- An incoming message is parsed to an end: OnData returns or throws, whatever bytes come in, as
  -- long as they and the buffered ones are fewer than size_max. The reader is at lines, or outside of
  -- lines in a body that is not chunked.
  pub message_data-IsDone :
      (r : Reader) (m : IMessage A) (d : Bytes)
      → Inv r.mode m
      → length r.buffer + length d < size_max
      → IsDone (message_data set_startline r m d [])
  unfolding message_data
  message_data-IsDone r m d inv small =
      on_data-IsDone (on_buffered set_startline) line_client r m d inv small

  -- The message that comes out does not depend on how its bytes are cut into calls of OnData: when
  -- the first call has not ended the message, the second goes on as one call on all bytes would
  -- have. The first part holds no NUL, the second is not empty, and the cut does not fall between two
  -- line break characters. The memory behind each part begins with a NUL. The reader is at lines, or outside of lines in a body that is not chunked,
  -- and all the bytes are fewer than size_max.
  pub message_data-append :
      (r : Reader) (m : IMessage A) (a b : Bytes) (r' : Reader) (m' : IMessage A)
      → Inv r.mode m
      → length r.buffer + length a + length b < size_max
      → HasNoNul a
      → b ≢ []
      → IsCut a b
      → message_data set_startline r m a [] ≡ returned false r' m'
      → message_data set_startline r m (a ++ b) [] ≡ message_data set_startline r' m' b []
  unfolding message_data
  message_data-append r m a b r' m' inv small nul ne cut e =
      on_data-append (on_buffered set_startline) stream_client r m a b r' m' inv small nul ne cut e
