-- ===== src/Rest/Order.antt =====
-- include/rikitiki/rest/rest.tcc: what a registration adds, in whatever order its calls are made.
use mathlib.Core.List.{filter_map, Permᴰ}
use mathlib.Core.List.Permᴰ
use rikitiki.Base.{
  suc, ◌+◌, Bool, List, [], ◌∷◌, ◌++◌, ◌≡◌, refl, sym, ap, ◌∙◌, arith, Bytes, codes, length,
  append-nil, append_assoc, Option-cases, inl, inr,
}
use rikitiki.Dispatch.{Handler}
use rikitiki.Routing.{Route}
use rikitiki.Rest.{Registration, calls, create_if_handles, register_calls, register}

length-Permᴰ : {A : Type 0} {xs ys : List A} → Permᴰ xs ys → length xs ≡ length ys
length-Permᴰ Permᴰ.nil = refl
length-Permᴰ (Permᴰ.cons e p) = ap suc (length-Permᴰ p)
length-Permᴰ (Permᴰ.swap e f) = refl
length-Permᴰ (Permᴰ.trans p q) = length-Permᴰ p ∙ length-Permᴰ q

module _ {R S : Type 0} (has_function : Registration → Bool)
    (handler_of : Route → Handler R S) where
  -- The handlers that calls make.
  unfoldable pub made : (route route_w_id : Bytes) → List Registration → List (Handler R S)
  unfolding create_if_handles
  made route route_w_id = filter_map (create_if_handles has_function handler_of route route_w_id)

  register_calls-made :
      (route route_w_id : Bytes) (cs : List Registration) (hs : List (Handler R S))
      → register_calls has_function handler_of route route_w_id cs hs
        ≡ (length (made route route_w_id cs), hs ++ made route route_w_id cs)
  unfolding register_calls made filter_map
  register_calls-made route route_w_id [] hs = ap (λ l. (0, l)) (sym (append-nil hs))
  register_calls-made route route_w_id (c ∷ cs) hs =
      let rest = made route route_w_id cs in
      let none_more : 0 + length rest ≡ length rest = omega arith in
      let one_more : 1 + length rest ≡ suc (length rest) = omega arith in
      elim (Option-cases (create_if_handles has_function handler_of route route_w_id c)) [
        | inl null ↦ rw null (
            ap (λ r. (0 + r.0, r.1)) (register_calls-made route route_w_id cs hs) ∙ λ i.
            (none_more i, hs ++ rest))
        | inr (h, there) ↦ rw there (
            ap (λ r. (1 + r.0, r.1)) (register_calls-made route route_w_id cs (hs ++ h ∷ [])) ∙ λ i.
            (one_more i, append_assoc hs (h ∷ []) rest i))
      ]

  -- In whatever order the eight calls are made, Register returns the number of functions that the
  -- class has, and adds behind the handlers that are there one for each of these functions: in the
  -- order of the calls, and so a permutation of those in the order of the text.
  pub register-made :
      (order : List Registration) (route : Bytes) (hs : List (Handler R S))
      → Permᴰ order calls
      → (register has_function handler_of order route hs ≡ (
        length (made route (route ++ codes "/{id}") calls),
        hs ++ made route (route ++ codes "/{id}") order,
      ))
        × Permᴰ
            (made route (route ++ codes "/{id}") order)
            (made route (route ++ codes "/{id}") calls)
  unfolding register
  register-made order route hs p =
      let route_w_id = route ++ codes "/{id}" in
      let q : Permᴰ (made route route_w_id order) (made route route_w_id calls) =
        unfold made in Permᴰ.filter_map _ p in
      let same = length-Permᴰ q in
      (
        register_calls-made route route_w_id order hs ∙ λ i.
            (same i, hs ++ made route route_w_id order),
        q,
      )
