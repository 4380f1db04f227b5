-- ===== src/Dispatch.antt =====
-- src/server.cc, include/rikitiki/server.h: the server's handlers and the choice between them. Handlers
-- are virtual: a handler is a record of its two functions. `R` is the request, `S` what the context
-- holds beside its handled flag. A handler may throw a HandlerException, whose status may be null.
pub mod Choice
use rikitiki.Base.{Bool, true, false, List, [], ◌∷◌, ◌++◌, Option, none, some, if◌then◌else◌}
use rikitiki.Http.Status
use rikitiki.Http.Status.{HttpStatus}

pub record Context (S : Type 0) : Type 0 where
  pub handled : Bool
  pub state : S

-- What CanHandle does, and what Handle does; the result of Handle is not used.
pub data Answer : Type 0 where
  answers : Bool → Answer
  refuses : Option HttpStatus → Answer

pub data Attempt (S : Type 0) : Type 0 where
  returned : Context S → Attempt S
  threw : Context S → Option HttpStatus → Attempt S

pub record Handler (R S : Type 0) : Type 0 where
  pub can_handle : R → Answer
  pub handle : Context S → Attempt S

-- Handler::Handle
abbrev pub base_handle : {S : Type 0} → Context S → Context S
base_handle ctx = record ctx { handled = true }

-- Server::GetHandler, which passes an exception on.
pub data Found (R S : Type 0) : Type 0 where
  found : Handler R S → Found R S
  no_handler : Found R S
  thrown : Option HttpStatus → Found R S

-- Server::AddHandler
abbrev pub add_handler : {R S : Type 0} → Handler R S → List (Handler R S) → List (Handler R S)
add_handler h hs = hs ++ h ∷ []

-- `request` is what the context's Request refers to, and `write_status` is Response << status.
module _ {R S : Type 0} where
  abbrev pub pick : Answer → Handler R S → Found R S → Found R S
  pick (answers true) h rest = found h
  pick (answers false) h rest = rest
  pick (refuses status) h rest = thrown status

  unfoldable pub get_handler : List (Handler R S) → R → Found R S
  get_handler [] request = no_handler
  get_handler (h ∷ hs) request = pick (h.can_handle request) h (get_handler hs request)

  module _ (request : S → R) (write_status : HttpStatus → S → S) where
    -- `ctx << status` on a ConnContextRef: Response << status. The context is not marked as handled.
    abbrev pub put_status : HttpStatus → Context S → Context S
    put_status status ctx = record ctx { state = write_status status ctx.state }

    abbrev pub caught : Option HttpStatus → Context S → Context S
    caught none ctx = put_status Status.internal_server_error ctx
    caught (some status) ctx = put_status status ctx

    abbrev pub try_handler : Answer → Handler R S → Context S → Attempt S
    try_handler (answers true) h ctx = h.handle ctx
    try_handler (answers false) h ctx = returned ctx
    try_handler (refuses status) h ctx = threw ctx status

    -- The try block for one handler.
    abbrev pub attempt : Handler R S → Context S → Attempt S
    attempt h ctx = try_handler (h.can_handle (request ctx.state)) h ctx

    -- What follows the try block; `next` is the rest of the loop.
    abbrev pub go_on : Attempt S → (Context S → Bool × Context S) → Bool × Context S
    go_on (threw ctx status) next = (true, caught status ctx)
    go_on (returned ctx) next = if ctx.handled then (true, ctx) else next ctx

    -- Server::Handle
    unfoldable pub server_handle : List (Handler R S) → Context S → Bool × Context S
    server_handle [] ctx = (false, ctx)
    server_handle (h ∷ hs) ctx = go_on (attempt h ctx) (λ ctx'. server_handle hs ctx')
