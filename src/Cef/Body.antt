-- ===== src/Cef/Body.antt =====
-- src/cef/server.cc, src/cef/connContext.h: a response's body between the handler that writes it and the
-- browser that reads it, call by call.
use mathlib.Core.Option
use rikitiki.Base.{
  ℕ, zero, suc, Bool, [], ◌∷◌, ◌++◌, append_assoc, Option, none, some, ◌≡◌, ◌≢◌, refl, sym, ap,
  subst, ◌∙◌, arith, Bytes, length, take, drop, take-append-drop, ◌==◌, ne→==, if◌then◌else◌,
}
use rikitiki.Cef.{
  Response, empty_response, state_set, payload_written, write_payload, continue_data,
}
use rikitiki.Cef.Resource.{read_response}
use rikitiki.Http.Header.{Header, Cookie, Utf}
use rikitiki.Http.ContentType.{ContentType}
use rikitiki.Http.Memory
use rikitiki.Http.Memory.{
  ResponseMemory, respond_payload, respond_header, respond_cookie, respond_content_type, put_status,
  payload_state,
}
use rikitiki.Http.Message.{put_text, put_header, put_cookie, set_content_type}
use rikitiki.Http.Status.{HttpStatus}

-- What a response has come to, with the data written to it and the data read from it. A read asks for
-- at least one byte.
pub data Reach {C : Type 0} (callback : Option C) : Bytes → Bytes → Response C → Type 0 where
  begun : Reach callback [] [] (empty_response callback)
  status_put :
      {w d : Bytes} {r : Response C} (s : HttpStatus)
      → Reach callback w d r
      → Reach callback w d (record r { memory = put_status s r.memory })
  header_put :
      {w d : Bytes} {r : Response C} (h : Header)
      → Reach callback w d r
      → Reach callback w d (record r { memory = respond_header h r.memory })
  cookie_put :
      {w d : Bytes} {r : Response C} (c : Cookie)
      → Reach callback w d r
      → Reach callback w d (record r { memory = respond_cookie c r.memory })
  type_put :
      {w d : Bytes} {r : Response C} (utf : Utf) (t : ContentType)
      → Reach callback w d r
      → Reach callback w d (record r { memory = respond_content_type utf t r.memory })
  written :
      {w d : Bytes} {r r' : Response C} (x : Bytes)
      → Reach callback w d r
      → write_payload x r ≡ some r'
      → Reach callback (w ++ x) d r'
  read :
      {w d : Bytes} {r : Response C} (alone : Bool) (n : ℕ) (c : C)
      → n ≢ 0
      → Reach callback w d r
      → Reach callback w (d ++ (read_response alone n c r).0) (read_response alone n c r).2

-- Nobody waits where there is something to read.
abbrev pub IsFed : {C : Type 0} → Option C → Bytes → Type 0
IsFed none unread = Unit
IsFed (some c) unread = unread ≡ []

map-some :
    {A B : Type 0} (f : A → B) (o : Option A) {b : B}
    → Option.map f o ≡ some b
    → (a : A) × (o ≡ some a) × (f a ≡ b)
map-some f none e = absurd (cc e)
map-some f (some a) e = (a, refl, cc)

bind-some :
    {A B : Type 0} (o : Option A) (f : A → Option B) {b : B}
    → Memory.◌>>=◌ o f ≡ some b
    → (a : A) × (o ≡ some a) × (f a ≡ some b)
bind-some none f e = absurd (cc e)
bind-some (some a) f e = (a, refl, e)

respond_payload-body :
    (x : Bytes) (m m' : ResponseMemory)
    → respond_payload x m ≡ some m'
    → m'.message.body ≡ m.message.body ++ x
unfolding respond_payload payload_state
respond_payload-body x m m' e =
    let (o, goes, same) = bind-some (payload_state m.out) _ e in
    let made : m' ≡ record m { out = o; message = put_text x m.message } = cc in
    ap (λ y. y.message.body) made

module _ {C : Type 0} where
  abbrev pub IsDelivered : Bytes → Bytes → Response C → Type 0
  IsDelivered w d r = (w ≡ d ++ r.memory.message.body) × IsFed r.data_ready r.memory.message.body

  continue_data-IsFed :
      (r : Response C) (reader : Option C) (b : Bytes)
      → r.data_ready ≡ reader
      → IsFed (continue_data r reader).data_ready b
  continue_data-IsFed r none b e = rw e tt
  continue_data-IsFed r (some c) b e = tt

  payload_written-IsFed :
      (r : Response C) (m : ResponseMemory) (b : Bytes) → IsFed (payload_written r m).data_ready b
  unfolding payload_written
  payload_written-IsFed r m b =
      let told = state_set r.memory.out.stream_state m.out.stream_state r in
      continue_data-IsFed told told.data_ready b refl

  payload_written-memory : (r : Response C) (m : ResponseMemory) → (payload_written r m).memory ≡ m
  unfolding payload_written
  payload_written-memory r m = refl

  written-IsDelivered :
      (w d : Bytes) (r r' : Response C) (x : Bytes)
      → IsDelivered w d r
      → write_payload x r ≡ some r'
      → IsDelivered (w ++ x) d r'
  unfolding write_payload
  written-IsDelivered w d r r' x (whole, fed) e =
      let (m, goes, same) = map-some (payload_written r) (respond_payload x r.memory) e in
      let more : r'.memory.message.body ≡ r.memory.message.body ++ x =
        ap (λ y. y.memory.message.body) (sym same)
        ∙ ap (λ y. y.message.body) (payload_written-memory r m)
        ∙ respond_payload-body x r.memory m goes in
      (
        ap (λ y. y ++ x) whole ∙ append_assoc d r.memory.message.body x ∙ ap (◌++◌ d) (sym more),
        subst (λ y. IsFed y.data_ready y.memory.message.body) same (payload_written-IsFed r m _),
      )

  read-IsDelivered :
      (w d : Bytes) (r : Response C) (alone : Bool) (n : ℕ) (c : C)
      → n ≢ 0
      → IsDelivered w d r
      → IsDelivered w (d ++ (read_response alone n c r).0) (read_response alone n c r).2
  unfolding read_response
  read-IsDelivered w d r alone n c ne (whole, fed) = (
    whole
        ∙ ap (◌++◌ d) (sym (take-append-drop n r.memory.message.body))
        ∙ sym (append_assoc d (take n r.memory.message.body) (drop n r.memory.message.body)),
    waits n ne r.memory.message.body,
  )
    where
      waits :
          (n : ℕ)
          → n ≢ 0
          → (b : Bytes) → IsFed (if length (take n b) == 0 then some c else none) (drop n b)
      waits zero ne b = absurd (ne refl)
      waits (suc n) ne [] = refl
      waits (suc n) ne (x ∷ b) = rw (ne→== (length (take (suc n) (x ∷ b))) 0 (omega arith)) tt

  -- In whatever order the handler writes statuses, headers and data and the browser reads, asking for at
  -- least one byte each time, what has been read and what is still unread are together the data that has
  -- been written, in order; and no reader is left waiting while there is something to read.
  pub Reach-IsDelivered :
      (callback : Option C) (w d : Bytes) (r : Response C)
      → Reach callback w d r
      → IsDelivered w d r
  unfolding empty_response respond_header respond_cookie respond_content_type put_header put_cookie
      set_content_type
  Reach-IsDelivered callback w d r begun = (refl, tt)
  Reach-IsDelivered callback w d r (status_put s h) = Reach-IsDelivered callback w d _ h
  Reach-IsDelivered callback w d r (header_put x h) = Reach-IsDelivered callback w d _ h
  Reach-IsDelivered callback w d r (cookie_put x h) = Reach-IsDelivered callback w d _ h
  Reach-IsDelivered callback w d r (type_put utf t h) = Reach-IsDelivered callback w d _ h
  Reach-IsDelivered callback w d r (written x h goes) =
      written-IsDelivered _ d _ r x (Reach-IsDelivered callback _ d _ h) goes
  Reach-IsDelivered callback w d r (read alone n c ne h) =
      read-IsDelivered w _ _ alone n c ne (Reach-IsDelivered callback w _ _ h)
