-- ===== src/Tests/Routes.antt =====
-- Routes, handlers and content types.
use rikitiki.Base.{ℕ, true, false, List, [], ◌∷◌, some, ◌==◌, ◌≡◌, refl, arith, codes}
use rikitiki.Http.ContentType.{ContentType, from_string, to_string}
use rikitiki.Http.ContentType.Names.{types_after, from_string-types_after}
use rikitiki.Http.RequestMethod
use rikitiki.Http.Status.{HttpStatus}
use rikitiki.Routing.{Route, can_handle, handle, string_argument}
use rikitiki.Routing.Scan.{Part, IsTemplate, handle-uri_of}
use rikitiki.Dispatch.{Context, answers, returned, Handler, get_handler, server_handle}
use rikitiki.Dispatch.Choice.{server_handle-handled, server_handle-get_handler}

from_string-types_after_example :
    (from_string (codes "image/png") (types_after (codes "application/x-javascript" ∷ []))).0
    ≡ ContentType.image_png
from_string-types_after_example =
    unfold to_string in
    from_string-types_after ContentType.image_png (codes "application/x-javascript" ∷ [])
      (λ e. cc e, λ e. cc e)

abbrev post_route : Route
post_route = record { route = codes "/user/{id}/post/{post}.html"; method = RequestMethod.get }

abbrev post_parts : List Part
post_parts =
    record { literal = codes "/user/"; name = codes "id"; value = codes "ann" }
    ∷ record { literal = codes "/post/"; name = codes "post"; value = codes "7-a" }
    ∷ []

posts-IsTemplate : IsTemplate post_parts (codes ".html")
posts-IsTemplate = (
  record { plain = omega arith; named = omega arith; accepted = ground arith; valued = λ e. cc e },
  refl,
  (
    record {
      plain = omega arith;
      named = omega arith;
      accepted = ground arith;
      valued = λ e. cc e;
    },
    refl,
    omega arith,
  ),
)

handle-uri_of_example :
    (can_handle post_route
        (string_argument ∷ string_argument ∷ [])
        RequestMethod.get
        (codes "/user/ann/post/7-a.html")
      ≡ true)
    × (handle post_route
          (string_argument ∷ string_argument ∷ [])
          RequestMethod.get
          (codes "/user/ann/post/7-a.html")
        ≡ some (codes "ann" ∷ codes "7-a" ∷ []))
handle-uri_of_example =
    handle-uri_of post_route RequestMethod.get post_parts (codes ".html") refl refl posts-IsTemplate
      (omega arith) (omega arith)

-- Requests are numbers, and so is what a handler leaves.
abbrev only : ℕ → ℕ → Handler ℕ ℕ
only n answer = record {
  can_handle = λ r. answers (r == n);
  handle = λ ctx. returned (record { handled = true; state = answer });
}

abbrev asked : ℕ → Context ℕ
asked n = record { handled = false; state = n }

abbrev status_code : HttpStatus → ℕ → ℕ
status_code status n = status.status

server_handle-handled_example :
    (server_handle (λ n. n) status_code (only 1 10 ∷ only 2 20 ∷ []) (asked 3)).0
    ≡ (server_handle (λ n. n) status_code (only 1 10 ∷ only 2 20 ∷ []) (asked 3)).1.handled
server_handle-handled_example =
    server_handle-handled (λ n. n) status_code (only 1 10 ∷ only 2 20 ∷ []) (asked 3)
      ((λ r. tt, λ ctx. tt), ((λ r. tt, λ ctx. tt), tt)) refl

server_handle-get_handler_example :
    server_handle (λ n. n) status_code (only 1 10 ∷ only 2 20 ∷ []) (asked 2)
    ≡ (true, record { handled = true; state = 20 })
server_handle-get_handler_example =
    server_handle-get_handler (λ n. n) status_code (only 1 10 ∷ only 2 20 ∷ []) (only 2 20)
      (asked 2) (record { handled = true; state = 20 }) refl (unfold get_handler in refl) refl refl
