-- ===== src/Http/Parsing/Reader/Line.antt =====
-- src/http/Response.cc: BufferedReader on one whole line that ends in "\r\n".
use native.Mathlib.Nat.{zero-add}
use rikitiki.Base.{
  ℕ, suc, ◌^◌, ◌<◌, Bool, false, [], ◌∷◌, ◌++◌, Option, some, ◌≡◌, ◌≢◌, refl, ◌∙◌, arith, Bytes,
  length, take, drop, All, codes, append_assoc, take-length, drop-length,
}
use rikitiki.Http.Parsing.{BufferMode}
use rikitiki.Http.Parsing.Scan.{is_newline}
use rikitiki.Http.Parsing.Reader.{Reader, find_newline, deliver, on_data_loop}
use rikitiki.Http.Parsing.Reader.Round
use rikitiki.Http.Parsing.Reader.Round.{StreamClient, line_reader}

-- Text within a line.
abbrev pub IsLine : Bytes → Type 0
IsLine = All (λ c. (c ≢ 0) × (is_newline c ≡ false))

abbrev pub crlf : Bytes
crlf = codes "\r\n"

find_newline-line :
    (l rest : Bytes) → IsLine l → find_newline (l ++ (crlf ++ rest)) ≡ some (length (l ++ crlf))
unfolding find_newline
find_newline-line [] rest h = refl
find_newline-line (c ∷ l) rest ((nul, text), h) = ground (arith, find_newline-line l rest h)

-- A reader at the start of a line.
abbrev pub at_line : ℕ → Reader
at_line e = record { mode = BufferMode.newline; expected_size = e; buffer = [] }

abbrev pub full_line : Bytes → Reader
full_line l = record {
  mode = BufferMode.newline;
  expected_size = length (l ++ crlf);
  buffer = l ++ crlf;
}

module _ {S : Type 0} (on_buffered : Reader → S → Bytes → Option (Reader × S × Bool))
    (client : StreamClient on_buffered) where
  loop_text :
      (f e : ℕ) (s : S) (d : Bytes) (n : ℕ)
      → length d < 2 ^ 64
      → find_newline d ≡ some n
      → on_data_loop on_buffered (suc f) (at_line e) s d []
        ≡ deliver
            (on_buffered (line_reader (at_line e) d n) s (take n d))
            (λ r' s'. on_data_loop on_buffered f r' s' (drop n d) [])
  loop_text f e s [] n small found = unfold find_newline in cc
  loop_text f e s (c ∷ cs) n small found =
      Round.loop_line on_buffered client f (at_line e) s c cs n refl small found

  -- The handler is called on the line with its end, and the loop goes on behind it.
  pub loop_crlf :
      (f e : ℕ) (s : S) (l rest : Bytes)
      → IsLine l
      → length (l ++ (crlf ++ rest)) < 2 ^ 64
      → on_data_loop on_buffered (suc f) (at_line e) s (l ++ (crlf ++ rest)) []
        ≡ deliver
            (on_buffered (full_line l) s (l ++ crlf))
            (λ r' s'. on_data_loop on_buffered f r' s' rest [])
  loop_crlf f e s l rest h small =
      loop_text f e s (l ++ (crlf ++ rest)) (length (l ++ crlf)) small (find_newline-line l rest h)
      ∙ rw (
        ← append_assoc l crlf rest,
        take-length (l ++ crlf) rest,
        drop-length (l ++ crlf) rest,
        zero-add,
      )
