-- ===== src/Context.antt =====
-- src/connContext.cc, src/server.cc, include/rikitiki/server.h: the operators of ConnContext and of a
-- reference to it, where the response is an OResponseWriter, and what becomes of a context when its last reference goes away.
pub mod Serve
pub mod Thrown
use rikitiki.Base.{Bool, true, false, Option, none, some, Bytes, codes, c_str, if◌then◌else◌}
use rikitiki.Http.ContentType.{ContentType, to_string}
use rikitiki.Http.Header.{Header, Cookie}
use rikitiki.Http.Outgoing.{
  Writer, Result, Error, write_header, write_cookie, write_payload, set_status, done,
}
use rikitiki.Http.Outgoing
use rikitiki.Http.Status.{HttpStatus}
use rikitiki.Dispatch.{Context}

-- A call returns, or throws and leaves the context behind.
pub data Returned : Type 0 where
  ok : Context Writer → Returned
  err : Context Writer → Error → Returned

abbrev pub with_response : Context Writer → Result → Returned
with_response ctx (Outgoing.ok w) = ok (record ctx { state = w })
with_response ctx (Outgoing.err e) = err ctx e

infixl 5 ◌>>=◌
abbrev pub ◌>>=◌ : Returned → (Context Writer → Returned) → Returned
ok ctx >>= f = f ctx
err ctx e >>= f = err ctx e

abbrev marked : Context Writer → Context Writer
marked ctx = record ctx { handled = true }

-- ConnContext::operator <<(const HttpStatus&)
unfoldable pub put_status : HttpStatus → Context Writer → Returned
unfolding set_status
put_status s ctx = ok (record ctx { handled = true; state = set_status s ctx.state })

-- ConnContext::operator <<(const Cookie&)
unfoldable pub put_cookie : Cookie → Context Writer → Returned
unfolding write_cookie
put_cookie c ctx = with_response (marked ctx) (write_cookie c ctx.state)

-- ConnContext::operator <<(const Header&)
unfoldable pub put_header : Header → Context Writer → Returned
unfolding write_header
put_header h ctx = with_response (marked ctx) (write_header h ctx.state)

-- ConnContext::operator <<(const std::string&): the context is not marked as handled.
unfoldable pub put_text : Bytes → Context Writer → Returned
unfolding write_payload
put_text s ctx = with_response ctx (write_payload s ctx.state)

-- ConnContext::operator <<(const char*)
unfoldable pub put_c_text : Bytes → Context Writer → Returned
unfolding put_text
put_c_text s ctx = put_text (c_str s) ctx

-- OMessage::operator <<(ContentType::t), ConnContext::operator <<(ContentType::t)
abbrev pub type_header : ContentType → Header
type_header t = record { first = codes "Content-Type"; second = to_string t }

unfoldable pub put_content_type : ContentType → Context Writer → Returned
unfolding write_header to_string
put_content_type t ctx = with_response ctx (write_header (type_header t) ctx.state)

-- `<<` on a ConnContextRef, which module functions and handlers hold: Response << obj. The context is
-- not marked as handled.
unfoldable pub ref_put_status : HttpStatus → Context Writer → Returned
unfolding set_status
ref_put_status s ctx = ok (record ctx { state = set_status s ctx.state })

unfoldable ref_put_cookie : Cookie → Context Writer → Returned
unfolding write_cookie
ref_put_cookie c ctx = with_response ctx (write_cookie c ctx.state)

unfoldable pub ref_put_header : Header → Context Writer → Returned
unfolding write_header
ref_put_header h ctx = with_response ctx (write_header h ctx.state)

unfoldable ref_put_content_type : ContentType → Context Writer → Returned
unfolding write_header to_string
ref_put_content_type t ctx = with_response ctx (write_header (type_header t) ctx.state)

-- A text goes through operator <<(OResponse&, const T&) and the stream operator for std::string of
-- connContext.cc, which prints it up to a NUL.
unfoldable pub ref_put_text : Bytes → Context Writer → Returned
unfolding write_payload
ref_put_text s ctx = with_response ctx (write_payload (c_str s) ctx.state)

-- ConnContext::Close
unfoldable pub close : Context Writer → Returned
unfolding done
close ctx = with_response ctx (done ctx.state)

-- CleanConnContext, which deletes the context afterwards.
unfoldable pub clean_context : Context Writer → Returned
unfolding close
clean_context ctx = if ctx.handled then close ctx else ok ctx
