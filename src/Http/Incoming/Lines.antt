-- ===== src/Http/Incoming/Lines.antt =====
-- src/http/incoming/Message.cc: the states that the parser and its reader can be in together.
use rikitiki.Base.{
  false, [], ◌∷◌, Option, some, ◌≡◌, ◌≢◌, refl, ap, ◌∙◌, arith, Bytes, Bool-cases, inl, inr,
}
use rikitiki.Http.Parsing.{
  MessageState, start_line, headers, body, finished, BodyType, known_size, chunked, BufferMode,
  body_type_from, size_max,
}
use rikitiki.Http.Parsing.Reader.{Reader}
use rikitiki.Http.Incoming.{
  IMessage, answer, headers_end, header_read, chunk_read, sized_read, body_read, start_read,
  state_read, begins_line_break,
}

module _ {A : Type 0} where
  -- Outside of lines, the parser is in a body that is not chunked.
  abbrev pub Inv : BufferMode → IMessage A → Type 0
  Inv BufferMode.length m = ⊥
  Inv BufferMode.newline m = Unit
  Inv BufferMode.none m = (m.stream_state ≡ body) × (m.body_type ≢ chunked)

  headers_end-Inv :
      (r r' : Reader) (m m' : IMessage A) → headers_end r m ≡ some (r', m', false) → Inv r'.mode m'
  unfolding headers_end body_type_from
  headers_end-Inv r r' m m' e = ground arith

  chunk_read-Inv :
      (r r' : Reader) (m m' : IMessage A) (d : Bytes)
      → r.expected_size ≢ size_max
      → chunk_read r m d ≡ some (r', m', false)
      → Inv r'.mode m'
  unfolding chunk_read
  chunk_read-Inv r r' m m' d ne e = ground arith

  sized_read-Inv :
      (r r' : Reader) (m m' : IMessage A) (d : Bytes)
      → m.stream_state ≡ body
      → m.body_type ≡ known_size
      → Inv r.mode m
      → sized_read r m d ≡ some (r', m', false)
      → Inv r'.mode m'
  unfolding sized_read
  sized_read-Inv r r' m m' [] s b inv e =
      let same : (r' ≡ r) × (m' ≡ m) = ground arith in rw (same.0, same.1) inv
  sized_read-Inv r r' m m' (c ∷ cs) s b inv e = ground arith

  answer-Inv :
      (r r' : Reader) (m m' : IMessage A)
      → Inv r.mode m
      → answer r m ≡ some (r', m', false)
      → Inv r'.mode m'
  answer-Inv r r' m m' inv e = let same : (r' ≡ r) × (m' ≡ m) = (cc, cc) in rw (same.0, same.1) inv

  -- A message with more content is in the same state.
  Inv-content :
      (mode : BufferMode) (m : IMessage A) (t : Bytes)
      → Inv mode m
      → Inv mode (record m { content = t })
  Inv-content BufferMode.none m t inv = inv
  Inv-content BufferMode.newline m t inv = tt
  Inv-content BufferMode.length m t inv = inv

  chunked_line :
      (mode : BufferMode) (m : IMessage A)
      → Inv mode m
      → m.body_type ≡ chunked
      → mode ≡ BufferMode.newline
  chunked_line BufferMode.none m inv b = absurd (inv.1 b)
  chunked_line BufferMode.newline m inv b = refl
  chunked_line BufferMode.length m inv b = absurd inv

  body_read-Inv :
      (t : BodyType) (r r' : Reader) (m m' : IMessage A) (d : Bytes)
      → m.stream_state ≡ body
      → m.body_type ≡ t
      → (r.mode ≡ BufferMode.newline → r.expected_size ≢ size_max)
      → Inv r.mode m
      → body_read t r m d ≡ some (r', m', false)
      → Inv r'.mode m'
  unfolding body_read
  body_read-Inv chunked r r' m m' d s b line inv e =
      chunk_read-Inv r r' m m' d (line (chunked_line r.mode m inv b)) e
  body_read-Inv known_size r r' m m' d s b line inv e = sized_read-Inv r r' m m' d s b inv e
  body_read-Inv BodyType.none r r' m m' d s b line inv e = answer-Inv r r' m m' inv e
  body_read-Inv BodyType.buffering r r' m m' d s b line inv e =
      answer-Inv r r' _ m' (Inv-content r.mode m _ inv) e
  body_read-Inv BodyType.unknown r r' m m' d s b line inv e =
      answer-Inv r r' _ m' (Inv-content r.mode m _ inv) e

  -- Before the body only lines are read.
  line_mode :
      (mode : BufferMode) (m : IMessage A)
      → Inv mode m
      → m.stream_state ≢ body
      → mode ≡ BufferMode.newline
  line_mode BufferMode.none m inv ne = absurd (ne inv.0)
  line_mode BufferMode.newline m inv ne = refl
  line_mode BufferMode.length m inv ne = absurd inv

  header_read-mode :
      (r r' : Reader) (m m' : IMessage A) (d : Bytes)
      → header_read r m d ≡ some (r', m', false)
      → r' ≡ r
  unfolding header_read
  header_read-mode r r' m m' d e = cc

  Inv-newline : (mode : BufferMode) (m : IMessage A) → mode ≡ BufferMode.newline → Inv mode m
  Inv-newline BufferMode.none m e = absurd (cc)
  Inv-newline BufferMode.newline m e = tt
  Inv-newline BufferMode.length m e = absurd (cc)

module _ {A : Type 0} (set_startline : A → Bytes → Option A) where
  pub state_read-Inv :
      (t : MessageState) (r r' : Reader) (m m' : IMessage A) (d : Bytes)
      → m.stream_state ≡ t
      → (r.mode ≡ BufferMode.newline → r.expected_size ≢ size_max)
      → Inv r.mode m
      → state_read set_startline t r m d ≡ some (r', m', false)
      → Inv r'.mode m'
  unfolding state_read
  state_read-Inv start_line r r' m m' d s line inv e =
      let same : r' ≡ r = (unfold start_read in ground arith) in
      Inv-newline r'.mode m' (ap (λ r. r.mode) same ∙ line_mode r.mode m inv (λ b. cc))
  state_read-Inv headers r r' m m' d s line inv e = elim (Bool-cases (begins_line_break d)) [
    | inl blank ↦ headers_end-Inv r r' m m' (rw blank at e)
    | inr text ↦
        let same = header_read-mode r r' m m' d (rw text at e) in
        Inv-newline r'.mode m' (ap (λ r. r.mode) same ∙ line_mode r.mode m inv (λ b. cc))
  ]
  state_read-Inv body r r' m m' d s line inv e =
      body_read-Inv m.body_type r r' m m' d s refl line inv e
  state_read-Inv finished r r' m m' d s line inv e = cc
  state_read-Inv MessageState.unknown r r' m m' d s line inv e = answer-Inv r r' m m' inv e
