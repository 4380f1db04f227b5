-- ===== src/Tests/Forms.antt =====
-- Form contents, files and addresses.
use mathlib.Core.List.{foldl}
use rikitiki.Base.Strtol.{strtol}
use rikitiki.Base.{false, [], ◌∷◌, ◌++◌, Option, none, some, ◌≡◌, refl, arith, Bytes, codes, find}
use rikitiki.Contents.{insert, map_contents}
use rikitiki.Contents.Form.{map_contents-form_of}
use rikitiki.Url.{new_url}
use rikitiki.Url.Parts.{new_url-address}
use rikitiki.StaticContent.{StaticContentHandler, can_handle, handle}
use rikitiki.StaticContent.Root.{handle-accepted}

contents_tests :
    (map_contents (codes "a=1&b=x+y%21") []
      ≡ some ((codes "a", codes "1") ∷ (codes "b", codes "x y!") ∷ []))
    × (map_contents (codes "a=1&b") []
        ≡ some ((codes "a", codes "1") ∷ (codes "a", codes "b") ∷ []))
    × (map_contents (codes "a=&b=2") [] ≡ none)
unfolding map_contents strtol
contents_tests = (refl, refl, refl)

map_contents-form_of_example :
    map_contents (codes "to=you&full+name=J.+%26+Co") []
    ≡ some (
        foldl
          (λ m p. insert p m)
          []
          ((codes "to", codes "you") ∷ (codes "full name", codes "J. & Co") ∷ []))
map_contents-form_of_example =
    map_contents-form_of (codes "to", codes "you") ((codes "full name", codes "J. & Co") ∷ []) []
      ((ground arith, omega arith, λ e. cc e), ((ground arith, omega arith, λ e. cc e), tt))

abbrev served : StaticContentHandler
served = record { prefix = codes "/static/"; path = codes "www/"; mime_types = [] }

abbrev no_files : Bytes → Option Bytes
no_files path = none

handle-accepted_example :
    (rest : Bytes) × (codes "/static/a.png" ≡ codes "/static/" ++ rest)
    × ((handle no_files served [] (codes "/static/a.png")).opened ≡ codes "www/" ++ rest)
    × (find (codes "..") rest ≡ none)
handle-accepted_example =
    handle-accepted no_files served [] (codes "/static/a.png") (unfold can_handle in refl)

dots_refused : can_handle served (codes "/static/../a") ≡ false
unfolding can_handle
dots_refused = refl

new_url-address_example : new_url (codes "http://example.org/a/b") ≡ record {
  uri = codes "http://example.org/a/b";
  protocol_start = 0;
  host_start = 7;
  resource_start = 18;
}
new_url-address_example =
    new_url-address (codes "http") (codes "example.org") (codes "/a/b") (omega arith) (omega arith)
      refl (omega arith)
