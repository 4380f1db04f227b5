-- ===== src/Routing/Scan.antt =====
-- include/rikitiki/routing.tcc: modern_sscanf on a URI that is made from a route and string arguments.
use rikitiki.Base.{
  suc, ◌+◌, ◌<◌, Bool, true, false, not, List, [], ◌∷◌, ◌++◌, none, some, ◌==◌, if◌then◌else◌,
  Bytes, length, ◌≡◌, ◌≢◌, refl, sym, ap, if_true, ◌∙◌, arith, All, append_assoc, append-nil, ne→==,
  ==_refl, lt→ltb, c_str_whole, HasNoNul,
}
use rikitiki.Http.RequestMethod.{RequestMethod}
use rikitiki.Routing.{
  Stream, new_stream, peek, get, unget, skip_to_format, skip_to_unformat, is_accepted, extract_text,
  extract, scan_end, modern_sscanf, string_argument, Route, has_method, scan, can_handle, handle,
}

-- A part of a route: literal text, the name of an argument in braces, and the argument's value.
pub record Part : Type 0 where
  pub literal : Bytes
  pub name : Bytes
  pub value : Bytes

abbrev pub format_of : List Part → Bytes → Bytes
format_of [] last = last
format_of (p ∷ ps) last = p.literal ++ (b'{' ∷ (p.name ++ (b'}' ∷ format_of ps last)))

abbrev pub uri_of : List Part → Bytes → Bytes
uri_of [] last = last
uri_of (p ∷ ps) last = p.literal ++ (p.value ++ uri_of ps last)

abbrev pub values_of : List Part → List Bytes
values_of [] = []
values_of (p ∷ ps) = p.value ∷ values_of ps

-- A string argument for each part.
abbrev pub arguments : List Part → List (Stream → Bool × Bytes × Stream)
arguments [] = []
arguments (p ∷ ps) = string_argument ∷ arguments ps

-- Text at which an argument's value ends.
abbrev pub stops : Bytes → Bool
stops [] = true
stops (c ∷ cs) = not (is_accepted c)

pub record IsPart (p : Part) : Type 0 where
  pub plain : All (λ c. (c ≢ b'{') × (c < 128)) p.literal
  pub named : All (λ c. c ≢ b'}') p.name
  pub accepted : All (λ c. is_accepted c ≡ true) p.value
  pub valued : p.value ≢ []

abbrev pub IsTemplate : List Part → Bytes → Type 0
IsTemplate [] last = All (λ c. c < 128) last
IsTemplate (p ∷ ps) last = IsPart p × (stops (uri_of ps last) ≡ true) × IsTemplate ps last

-- The stream behind a value: an end that was met sets the fail bit.
behind : Bytes → Stream
behind [] = record { left = []; eof = false; fail = true }
behind (c ∷ cs) = new_stream (c ∷ cs)

skip_to_format_literal :
    (l uri format : Bytes)
    → All (λ c. (c ≢ b'{') × (c < 128)) l
    → skip_to_format (new_stream (l ++ uri)) (l ++ (b'{' ∷ format))
      ≡ (true, new_stream uri, b'{' ∷ format)
unfolding skip_to_format peek get
skip_to_format_literal [] uri format h = refl
skip_to_format_literal (c ∷ l) uri format ((ne, low), h) =
    rw (ne→== c 123 ne, ==_refl c, lt→ltb c 128 low) (skip_to_format_literal l uri format h)

skip_to_unformat_name :
    (n format : Bytes) → All (λ c. c ≢ b'}') n → skip_to_unformat (n ++ (b'}' ∷ format)) ≡ format
unfolding skip_to_unformat
skip_to_unformat_name [] format h = refl
skip_to_unformat_name (c ∷ n) format (ne, h) =
    rw (ne→== c 125 ne) (skip_to_unformat_name n format h)

skip_to_unformat_braces :
    (n format : Bytes)
    → All (λ c. c ≢ b'}') n
    → skip_to_unformat (b'{' ∷ (n ++ (b'}' ∷ format))) ≡ format
unfolding skip_to_unformat
skip_to_unformat_braces n format h = skip_to_unformat_name n format h

extract_text_value :
    (t v rest : Bytes)
    → All (λ c. is_accepted c ≡ true) v
    → stops rest ≡ true
    → extract_text t (v ++ rest) ≡ (t ++ v, behind rest)
unfolding extract_text behind get unget
extract_text_value t [] [] h s = ap (λ x. (x, behind [])) (sym (append-nil t))
extract_text_value t [] (c ∷ rest) h s =
    let ended : is_accepted c ≡ false = ground (arith, s) in
    rw ended (ap (λ x. (x, behind (c ∷ rest))) (sym (append-nil t)))
extract_text_value t (c ∷ v) rest (a, h) s = rw a (
    extract_text_value (t ++ c ∷ []) v rest h s
    ∙ ap (λ x. (x, behind rest)) (append_assoc t (c ∷ []) v))

extract_value :
    (v rest : Bytes)
    → All (λ c. is_accepted c ≡ true) v
    → v ≢ []
    → stops rest ≡ true
    → extract (new_stream (v ++ rest)) [] ≡ (true, v, behind rest)
unfolding extract
extract_value [] rest h ne s = absurd (ne refl)
extract_value (c ∷ v) rest h ne s = rw (extract_text_value [] (c ∷ v) rest h s, extract) refl

scan_end_good : (last : Bytes) → All (λ c. c < 128) last → scan_end (new_stream last) last ≡ 1
unfolding scan_end peek get
scan_end_good [] h = refl
scan_end_good (c ∷ last) (low, h) = rw (==_refl c) (scan_end_good last h)

scan_end-behind : (last : Bytes) → All (λ c. c < 128) last → scan_end (behind last) last ≡ 1
unfolding behind
scan_end-behind [] h = unfold scan_end peek in refl
scan_end-behind (c ∷ last) h = scan_end_good (c ∷ last) h

scan_part :
    (p : Part) (uri format : Bytes) (es : List (Stream → Bool × Bytes × Stream))
    → IsPart p
    → stops uri ≡ true
    → modern_sscanf
        (new_stream (p.literal ++ (p.value ++ uri)))
        (p.literal ++ (b'{' ∷ (p.name ++ (b'}' ∷ format))))
        (string_argument ∷ es)
      ≡ (let (n, vs) = modern_sscanf (behind uri) format es in (suc n, p.value ∷ vs))
unfolding modern_sscanf
scan_part p uri format es h s =
    rw
      (
        skip_to_format_literal p.literal (p.value ++ uri) (p.name ++ (b'}' ∷ format)) h.plain,
        extract_value p.value uri h.accepted h.valued s,
        skip_to_unformat_braces p.name format h.named,
      )
      refl

behind_text : (l v uri : Bytes) → v ≢ [] → behind (l ++ (v ++ uri)) ≡ new_stream (l ++ (v ++ uri))
unfolding behind
behind_text [] [] uri ne = absurd (ne refl)
behind_text [] (c ∷ v) uri ne = refl
behind_text (c ∷ l) v uri ne = refl

behind_part :
    (p : Part) (uri : Bytes)
    → IsPart p
    → behind (p.literal ++ (p.value ++ uri)) ≡ new_stream (p.literal ++ (p.value ++ uri))
behind_part p uri h = behind_text p.literal p.value uri h.valued

scan_parts :
    (ps : List Part) (last : Bytes)
    → IsTemplate ps last
    → modern_sscanf (behind (uri_of ps last)) (format_of ps last) (arguments ps)
      ≡ (suc (length ps), values_of ps)
unfolding modern_sscanf
scan_parts [] last h = ap (λ n. (n, [])) (scan_end-behind last h)
scan_parts (p ∷ ps) last (part, s, h) =
    ap (λ b. modern_sscanf b (format_of (p ∷ ps) last) (arguments (p ∷ ps)))
      (behind_part p (uri_of ps last) part)
    ∙ scan_part p (uri_of ps last) (format_of ps last) (arguments ps) part s
    ∙ ap (λ x. (suc x.0, p.value ∷ x.1)) (scan_parts ps last h)

scan_template :
    (ps : List Part) (last : Bytes)
    → IsTemplate ps last
    → modern_sscanf (new_stream (uri_of ps last)) (format_of ps last) (arguments ps)
      ≡ (suc (length ps), values_of ps)
scan_template [] last h = unfold modern_sscanf in ap (λ n. (n, [])) (scan_end_good last h)
scan_template (p ∷ ps) last h =
    ap (λ b. modern_sscanf b (format_of (p ∷ ps) last) (arguments (p ∷ ps)))
      (sym (behind_part p (uri_of ps last) h.0))
    ∙ scan_parts (p ∷ ps) last h

length-arguments : (ps : List Part) → length (arguments ps) ≡ length ps
length-arguments [] = refl
length-arguments (p ∷ ps) = ap suc (length-arguments ps)

scan_route :
    (r : Route) (ps : List Part) (last : Bytes)
    → r.route ≡ format_of ps last
    → IsTemplate ps last
    → HasNoNul (format_of ps last)
    → HasNoNul (uri_of ps last)
    → scan r (arguments ps) (uri_of ps last) ≡ (true, values_of ps)
unfolding scan
scan_route r ps last route template format_text uri_text =
    let count : (suc (length ps) == length (arguments ps) + 1) ≡ true =
      ground (arith, length-arguments ps) in
    rw
      (
        c_str_whole (uri_of ps last) uri_text,
        route,
        c_str_whole (format_of ps last) format_text,
        scan_template ps last template,
        count,
      )
      refl

-- A URI that is made from a route by putting a value for each argument in braces is handled by that
-- route, and the values are the arguments that its function is called with. All arguments are strings,
-- and the route takes the request's method. The route's literal
-- text is ASCII and holds no opening brace, a name holds no closing one; a value is not empty and
-- holds only characters that a string argument accepts, the text behind it begins with none of
-- those, and neither route nor URI holds a NUL.
pub handle-uri_of :
    (r : Route) (m : RequestMethod) (ps : List Part) (last : Bytes)
    → r.route ≡ format_of ps last
    → has_method r m ≡ true
    → IsTemplate ps last
    → HasNoNul (format_of ps last)
    → HasNoNul (uri_of ps last)
    → (can_handle r (arguments ps) m (uri_of ps last) ≡ true)
      × (handle r (arguments ps) m (uri_of ps last) ≡ some (values_of ps))
unfolding can_handle handle
handle-uri_of r m ps last route method template format_text uri_text =
    let read = scan_route r ps last route template format_text uri_text in
    (
      if_true _ _ _ method ∙ ap (λ x. x.0) read,
      if_true _ _ _ method ∙ ap (λ x. if x.0 then some x.1 else none) read,
    )
