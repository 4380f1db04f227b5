-- ===== src/Dispatch/Choice.antt =====
-- src/server.cc: which handler answers.
use rikitiki.Base.{
  All, Option, Bool, true, false, List, [], ◌∷◌, none, some, if◌then◌else◌, ◌≡◌, refl, sym, ap, ◌∙◌,
  Bool-cases, inl, inr, ◌⊎◌,
}
use rikitiki.Http.Status.{HttpStatus}
use rikitiki.Dispatch.{
  Context, Answer, answers, refuses, Attempt, returned, threw, Handler, Found, found, no_handler,
  get_handler, pick, go_on, server_handle, caught, attempt, try_handler,
}

picked :
    {R S : Type 0} (a : Answer) (g h : Handler R S) (rest : Found R S)
    → pick a g rest ≡ found h
    → ((a ≡ answers true) × (g ≡ h)) ⊎ ((a ≡ answers false) × (rest ≡ found h))
picked (answers true) g h rest e = inl (refl, cc)
picked (answers false) g h rest e = inr (refl, e)
picked (refuses status) g h rest e = cc

abbrev IsAnswer : Answer → Type 0
IsAnswer (answers b) = Unit
IsAnswer (refuses status) = ⊥

abbrev MarkedAttempt : {S : Type 0} → Attempt S → Type 0
MarkedAttempt (returned ctx) = Unit
MarkedAttempt (threw ctx status) = ctx.handled ≡ true

-- CanHandle does not throw, and Handle throws only with the context marked, as Handler::Handle does it.
abbrev pub Marks : {R S : Type 0} → Handler R S → Type 0
Marks {R} {S} h =
    ((request : R) → IsAnswer (h.can_handle request))
    × ((ctx : Context S) → MarkedAttempt (h.handle ctx))

passed :
    {R S : Type 0} (a : Answer) (g : Handler R S) (rest : Found R S)
    → pick a g rest ≡ no_handler
    → (a ≡ answers false) × (rest ≡ no_handler)
passed (answers true) g rest e = cc
passed (answers false) g rest e = (refl, e)
passed (refuses status) g rest e = cc

module _ {R S : Type 0} (request : S → R) (write_status : HttpStatus → S → S) where
  go_on_marked :
      (ctx : Context S) (next : Context S → Bool × Context S)
      → ctx.handled ≡ true
      → go_on request write_status (returned ctx) next ≡ (true, ctx)
  go_on_marked ctx next marked = ap (λ b. if b then (true, ctx) else next ctx) marked

  go_on_fresh :
      (ctx : Context S) (next : Context S → Bool × Context S)
      → ctx.handled ≡ false
      → go_on request write_status (returned ctx) next ≡ next ctx
  go_on_fresh ctx next fresh = ap (λ b. if b then (true, ctx) else next ctx) fresh

  go_on-handled :
      (a : Attempt S) (next : Context S → Bool × Context S)
      → MarkedAttempt a
      → ((ctx : Context S) → ctx.handled ≡ false → (next ctx).0 ≡ (next ctx).1.handled)
      → (go_on request write_status a next).0 ≡ (go_on request write_status a next).1.handled
  go_on-handled (threw ctx none) next marked h = sym marked
  go_on-handled (threw ctx (some status)) next marked h = sym marked
  go_on-handled (returned ctx) next unmarked h = elim (Bool-cases ctx.handled) [
    | inl marked ↦
        let e = go_on_marked ctx next marked in
        ap (λ r. r.0) e ∙ sym marked ∙ ap (λ r. r.1.handled) (sym e)
    | inr fresh ↦
        let e = go_on_fresh ctx next fresh in
        ap (λ r. r.0) e ∙ h ctx fresh ∙ ap (λ r. r.1.handled) (sym e)
  ]

  attempt-MarkedAttempt :
      (g : Handler R S) (ctx : Context S)
      → Marks g
      → MarkedAttempt (attempt request write_status g ctx)
  attempt-MarkedAttempt g ctx marks =
      try_marked (g.can_handle (request ctx.state)) (marks.0 (request ctx.state))
    where
      try_marked :
          (a : Answer) → IsAnswer a → MarkedAttempt (try_handler request write_status a g ctx)
      try_marked (answers true) h = marks.1 ctx
      try_marked (answers false) h = tt
      try_marked (refuses status) h = absurd h

  -- A context that is not handled before is handled afterwards exactly when Handle returns true, where
  -- no CanHandle throws, and a handler that throws has marked the context before.
  pub server_handle-handled :
      (hs : List (Handler R S)) (ctx : Context S)
      → All Marks hs
      → ctx.handled ≡ false
      → (server_handle request write_status hs ctx).0
        ≡ (server_handle request write_status hs ctx).1.handled
  unfolding server_handle
  server_handle-handled [] ctx marks h = sym h
  server_handle-handled (g ∷ hs) ctx marks h =
      go_on-handled _ _ (attempt-MarkedAttempt g ctx marks.0)
        (λ ctx' fresh. server_handle-handled hs ctx' marks.1 fresh)

  -- On a context that is not handled yet, the handler that GetHandler names is the one that Handle
  -- calls, and when it returns with the context marked as handled, what it leaves is the result.
  pub server_handle-get_handler :
      (hs : List (Handler R S)) (h : Handler R S) (ctx ctx' : Context S)
      → ctx.handled ≡ false
      → get_handler hs (request ctx.state) ≡ found h
      → h.handle ctx ≡ returned ctx'
      → ctx'.handled ≡ true
      → server_handle request write_status hs ctx ≡ (true, ctx')
  unfolding server_handle get_handler
  server_handle-get_handler [] h ctx ctx' fresh e called done = cc
  server_handle-get_handler (g ∷ hs) h ctx ctx' fresh e called done =
      elim (picked (g.can_handle (request ctx.state)) g h (get_handler hs (request ctx.state)) e) [
        | inl (accepts, same) ↦
            rw (accepts, same, called)
              (go_on_marked ctx' (server_handle request write_status hs) done)
        | inr (declines, later) ↦ rw declines (
            go_on_fresh ctx (server_handle request write_status hs) fresh
            ∙ server_handle-get_handler hs h ctx ctx' fresh later called done)
      ]

  -- An exception of the handler that GetHandler names ends the loop with that exception's status.
  pub server_handle-threw :
      (hs : List (Handler R S)) (h : Handler R S) (ctx ctx' : Context S)
      (status : Option HttpStatus)
      → ctx.handled ≡ false
      → get_handler hs (request ctx.state) ≡ found h
      → h.handle ctx ≡ threw ctx' status
      → server_handle request write_status hs ctx ≡ (true, caught request write_status status ctx')
  unfolding server_handle get_handler
  server_handle-threw [] h ctx ctx' status fresh e called = cc
  server_handle-threw (g ∷ hs) h ctx ctx' status fresh e called =
      elim (picked (g.can_handle (request ctx.state)) g h (get_handler hs (request ctx.state)) e) [
        | inl (accepts, same) ↦ rw (accepts, same, called) refl
        | inr (declines, later) ↦ rw declines (
            go_on_fresh ctx (server_handle request write_status hs) fresh
            ∙ server_handle-threw hs h ctx ctx' status fresh later called)
      ]

  -- Where no handler takes the request, nothing is called and the context is as it was.
  pub server_handle-no_handler :
      (hs : List (Handler R S)) (ctx : Context S)
      → ctx.handled ≡ false
      → get_handler hs (request ctx.state) ≡ no_handler
      → server_handle request write_status hs ctx ≡ (false, ctx)
  unfolding server_handle get_handler
  server_handle-no_handler [] ctx fresh e = refl
  server_handle-no_handler (g ∷ hs) ctx fresh e =
      let (declines, later) =
        passed (g.can_handle (request ctx.state)) g (get_handler hs (request ctx.state)) e in
      rw declines (
        go_on_fresh ctx (server_handle request write_status hs) fresh
        ∙ server_handle-no_handler hs ctx fresh later)
