-- ===== src/Rest.antt =====
-- include/rikitiki/rest/rest.tcc: the registration of a class's functions for the methods of HTTP as
-- routes. Which of them the class has is a parameter: CreateIfHandles looks for a function named
-- like the method, that takes the context, or the context and an int. The operands of a sum of calls
-- are evaluated in no given order, so the order of the eight calls is a parameter too.
pub mod Order
use rikitiki.Base.{
  ℕ, ◌+◌, Bool, true, false, List, [], ◌∷◌, ◌++◌, Option, none, some, if◌then◌else◌, Bytes, codes,
}
use rikitiki.Dispatch.{Handler, add_handler}
use rikitiki.Http.RequestMethod.{RequestMethod, get, post, put, delete}
use rikitiki.Routing.{Route}

pub record Registration : Type 0 where
  pub method : RequestMethod
  pub with_id : Bool

abbrev call : RequestMethod → Bool → Registration
call m b = record { method = m; with_id = b }

-- The calls that Register adds up.
abbrev pub calls : List Registration
calls =
    call get false
    ∷ call post false
    ∷ call put false
    ∷ call delete false
    ∷ call get true
    ∷ call post true
    ∷ call put true
    ∷ call delete true
    ∷ []

-- `handler_of` makes the handler of a route of the class.
module _ {R S : Type 0} (has_function : Registration → Bool)
    (handler_of : Route → Handler R S) where
  -- CreateIfHandlesGET and the others; null is `none`.
  unfoldable pub create_if_handles :
      (route route_w_id : Bytes) → Registration → Option (Handler R S)
  create_if_handles route route_w_id c =
      if has_function c
      then some (
          handler_of
            (record { route = if c.with_id then route_w_id else route; method = c.method }))
      else none

  -- addIfNotNull
  pub add_if_not_null : Option (Handler R S) → List (Handler R S) → ℕ × List (Handler R S)
  add_if_not_null none hs = (0, hs)
  add_if_not_null (some h) hs = (1, add_handler h hs)

  -- The calls in their order, added up.
  pub register_calls :
      (route route_w_id : Bytes) → List Registration → List (Handler R S) → ℕ × List (Handler R S)
  unfolding create_if_handles add_if_not_null
  register_calls route route_w_id [] hs = (0, hs)
  register_calls route route_w_id (c ∷ cs) hs =
      let (n, hs') = add_if_not_null (create_if_handles route route_w_id c) hs in
      let (m, hs'') = register_calls route route_w_id cs hs' in (n + m, hs'')

  -- Register(server, route, t), in which the second route is the first one and an id.
  unfoldable pub register : List Registration → Bytes → List (Handler R S) → ℕ × List (Handler R S)
  unfolding register_calls
  register order route hs = register_calls route (route ++ codes "/{id}") order hs
