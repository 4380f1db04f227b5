-- ===== src/StaticContent/Root.antt =====
-- src/StaticContentHandler.cc: the paths of files and the test of CanHandle.
use rikitiki.Base.StringMap.{StringMap}
use rikitiki.Base.{
  ℕ, zero, suc, true, [], ◌∷◌, ◌++◌, Option, none, ◌≡◌, refl, arith, Bytes, codes, c_str, length,
  drop, find, starts_with, Option-cases, inl, inr, Bool-cases,
}
use rikitiki.Http.ContentType.{ContentType}
use rikitiki.StaticContent.{StaticContentHandler, can_handle, relative_path, handle, is_zero}

starts_with-drop : (p s : Bytes) → starts_with p s ≡ true → s ≡ p ++ drop (length p) s
starts_with-drop [] s h = refl
starts_with-drop (c ∷ p) [] h = cc
starts_with-drop (c ∷ p) (d ∷ s) h = ground (arith, starts_with-drop p s)

find_zero : (p s : Bytes) → is_zero (find p s) ≡ true → starts_with p s ≡ true
find_zero p [] h = elim (Bool-cases (starts_with p [])) [
  | inl found ↦ found
  | inr missing ↦ ground (arith, missing)
]
find_zero p (c ∷ s) h = elim (Bool-cases (starts_with p (c ∷ s))) [
  | inl found ↦ found
  | inr missing ↦ ground (arith, missing)
]

find-tail : (p : Bytes) (c : ℕ) (s : Bytes) → find p (c ∷ s) ≡ none → find p s ≡ none
find-tail p c s h = elim (Option-cases (find p s)) [
  | inl missing ↦ missing
  | inr (n, found) ↦ ground (arith, found)
]

find-drop : (p : Bytes) (n : ℕ) (s : Bytes) → find p s ≡ none → find p (drop n s) ≡ none
find-drop p zero s h = h
find-drop p (suc n) [] h = h
find-drop p (suc n) (c ∷ s) h = find-drop p n s (find-tail p c s h)

accepted :
    (h : StaticContentHandler) (uri : Bytes)
    → can_handle h uri ≡ true
    → (find (codes "..") (c_str uri) ≡ none) × (is_zero (find h.prefix (c_str uri)) ≡ true)
unfolding can_handle
accepted h uri e = elim (Option-cases (find (codes "..") (c_str uri))) [
  | inl missing ↦ (missing, ground (arith, missing))
  | inr (n, found) ↦ ground (arith, found)
]

-- A request that the handler accepts opens the handler's path followed by the URI's text behind the
-- prefix, and that text holds no "..": no file above the path is reached by it.
pub handle-accepted :
    (files : Bytes → Option Bytes) (h : StaticContentHandler) (types : StringMap ContentType)
    (uri : Bytes)
    → can_handle h uri ≡ true
    → (rest : Bytes) × (c_str uri ≡ h.prefix ++ rest)
      × ((handle files h types uri).opened ≡ h.path ++ rest)
      × (find (codes "..") rest ≡ none)
unfolding handle
handle-accepted files h types uri e =
    let (no_dots, at_start) = accepted h uri e in
    (
      relative_path h uri,
      starts_with-drop h.prefix (c_str uri) (find_zero h.prefix (c_str uri) at_start),
      refl,
      find-drop (codes "..") (length h.prefix) (c_str uri) no_dots,
    )
