-- ===== src/Http/Incoming/Chunks.antt =====
-- src/http/incoming/Message.cc: the parser on the lines of a chunked body.
use rikitiki.Base.{
  ℕ, suc, ◌+◌, ◌-◌, ◌%◌, ◌^◌, ◌<◌, true, false, List, [], ◌∷◌, ◌++◌, Option, some, ◌≡◌, ◌≢◌, refl,
  sym, ap, subst, ◌∙◌, arith, ◌==◌, if◌then◌else◌, Bytes, length, take-length, length-append, All,
  append_assoc, ne→==, le→leb, lt→leb-false,
}
use native.Mathlib.Nat.{add_comm}
use rikitiki.Http.Parsing.{body, finished, chunked, size_max}
use rikitiki.Http.Parsing.Reader.{returned, on_data}
use rikitiki.Http.Parsing.Reader.Fuel.{IsDone, on_data_loop-add}
use rikitiki.Http.Parsing.Reader.Line.{IsLine, crlf, at_line, full_line, loop_crlf}
use rikitiki.Http.Incoming.{IMessage, message_data, on_buffered, state_read, body_read, chunk_read}
use rikitiki.Http.Incoming.Client.{stream_client, message_data-IsDone}
use rikitiki.Http.Incoming.Steps.{loop, loop_step}

-- Lines, each with its end, and what they hold without their ends.
abbrev pub lines_text : List Bytes → Bytes
lines_text [] = []
lines_text (l ∷ ls) = l ++ (crlf ++ lines_text ls)

abbrev pub lines_content : List Bytes → Bytes
lines_content [] = []
lines_content (l ∷ ls) = l ++ lines_content ls

abbrev pub IsChunkLine : Bytes → Type 0
IsChunkLine l = IsLine l × (l ≢ [])

length-ne : (l : Bytes) → l ≢ [] → length l ≢ 0
length-ne [] ne = absurd (ne refl)
length-ne (c ∷ l) ne = omega arith

module _ {A : Type 0} (set_startline : A → Bytes → Option A) where
  read_chunk_line :
      (m : IMessage A) (l : Bytes)
      → m.stream_state ≡ body
      → m.body_type ≡ chunked
      → m.is_bad ≡ false
      → length (l ++ crlf) < 2 ^ 63
      → on_buffered set_startline (full_line l) m (l ++ crlf)
        ≡ some (
          full_line l,
          record m {
            content = m.content ++ l;
            stream_state = if length l == 0 then finished else body;
          },
          length l == 0,
        )
  unfolding on_buffered state_read body_read chunk_read
  read_chunk_line m l s b good small =
      let size = length-append l crlf in
      let count : (length (l ++ crlf) + 2 ^ 64 - 2) % 2 ^ 64 ≡ length l = omega (arith, size) in
      let same : (length (l ++ crlf) == 2) ≡ (length l == 0) = ground (arith, size) in
      rw
        (
          s,
          state_read,
          b,
          body_read,
          chunk_read,
          ne→== (length (l ++ crlf)) size_max (omega arith),
          count,
          good,
          lt→leb-false (2 ^ 63) (length l) (omega (arith, size)),
          le→leb (length l) (length (l ++ crlf)) (omega (arith, size)),
          take-length l crlf,
          same,
        )
        (ground arith)

  -- Lines that are not empty, and then an empty line.
  read_chunk_lines :
      (ls : List Bytes) (e : ℕ) (m : IMessage A)
      → m.stream_state ≡ body
      → m.body_type ≡ chunked
      → m.is_bad ≡ false
      → All IsChunkLine ls
      → length (lines_text ls ++ crlf) < 2 ^ 63
      → loop set_startline (suc (length ls)) (at_line e) m (lines_text ls ++ crlf)
        ≡ returned true
            (at_line 2)
            (record m { stream_state = finished; content = m.content ++ lines_content ls })
  read_chunk_lines [] e m s b good plain small =
      loop_crlf (on_buffered set_startline) (stream_client set_startline) 0 e m [] [] tt
        (omega arith)
      ∙ rw (read_chunk_line m [] s b good (omega arith)) refl
  read_chunk_lines (l ∷ ls) e m s b good ((line, ne), plain) small =
      let rest = lines_text ls ++ crlf in
      let text : lines_text (l ∷ ls) ++ crlf ≡ l ++ (crlf ++ rest) =
        append_assoc l (crlf ++ lines_text ls) crlf in
      let all : length (l ++ (crlf ++ rest)) < 2 ^ 63 = subst (λ t. length t < 2 ^ 63) text small in
      let head = length-append l (crlf ++ rest) in
      let here = length-append l crlf in
      let m' = record m { content = m.content ++ l } in
      let one : length l ≢ 0 = length-ne l ne in
      let called = read_chunk_line m l s b good (omega (arith, all, head, here)) in
      let step =
        loop_step set_startline (suc (length ls)) e m m' l rest line (omega (arith, all))
          (rw (ne→== (length l) 0 one, sym s) at called) in
      let later =
        read_chunk_lines ls (length (l ++ crlf)) m' s b good plain (omega (arith, all, head)) in
      ap (loop set_startline (suc (suc (length ls))) (at_line e) m) text
      ∙ step
      ∙ later
      ∙ ap (λ t. returned true (at_line 2) (record m { stream_state = finished; content = t }))
          (append_assoc m.content l (lines_content ls))

  -- In a chunked body every line is content, the lines that give a chunk's size among them, without
  -- its line break; the first empty line ends the message. Every line before it is not empty and
  -- holds no NUL or line break, the reader is at the start of a line, the body's stream is not bad,
  -- and all the bytes are fewer than 2 ^ 63.
  pub message_data-lines :
      (ls : List Bytes) (e : ℕ) (m : IMessage A)
      → m.stream_state ≡ body
      → m.body_type ≡ chunked
      → m.is_bad ≡ false
      → All IsChunkLine ls
      → length (lines_text ls ++ crlf) < 2 ^ 63
      → message_data set_startline (at_line e) m (lines_text ls ++ crlf) []
        ≡ returned true
            (at_line 2)
            (record m { stream_state = finished; content = m.content ++ lines_content ls })
  unfolding message_data on_data
  message_data-lines ls e m s b good plain small =
      let text = lines_text ls ++ crlf in
      let read = read_chunk_lines ls e m s b good plain small in
      let enough = suc (length text) in
      let rounds = suc (length ls) in
      let total = message_data-IsDone set_startline (at_line e) m text tt (omega (arith, small)) in
      sym (on_data_loop-add (on_buffered set_startline) enough rounds (at_line e) m text total)
      ∙ ap (λ f. loop set_startline f (at_line e) m text) (add_comm enough rounds)
      ∙ on_data_loop-add (on_buffered set_startline) rounds enough (at_line e) m text
          (subst IsDone (sym read) tt)
      ∙ read
