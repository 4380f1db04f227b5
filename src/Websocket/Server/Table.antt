-- ===== src/Websocket/Server/Table.antt =====
-- src/websocket/websocketServer.cc: the table of processes under OnReady and Close, and the order of
-- the handlers.
use rikitiki.Base.{
  ℕ, ◌<◌, List, [], ◌∷◌, Option, none, some, ◌==◌, ◌≡◌, ◌≢◌, refl, subst, arith, All, All-map, ltb,
  if◌then◌else◌, inl, inr, Option-cases, Bool-cases,
}
use rikitiki.Websocket.Server.{
  ProcessClass, at_key, put, erase, found, Server, close, handle_ws, add_ws_handler,
}

-- The keys are in order, each once.
abbrev pub IsTable {ℓ} : {V : Type ℓ} → List (ℕ × V) → Type 0
IsTable [] = Unit
IsTable ((k, v) ∷ m) = All (λ e. k < e.0) m × IsTable m

module _ {V : Type 0} where
  above_missing : (k : ℕ) (m : List (ℕ × V)) → All (λ e. k < e.0) m → at_key k m ≡ none
  unfolding at_key
  above_missing k [] h = refl
  above_missing k ((j, v) ∷ m) (lt, h) = ground (arith, above_missing k m h)

  erase-above : (i k : ℕ) (m : List (ℕ × V)) → All (λ e. i < e.0) m → All (λ e. i < e.0) (erase k m)
  unfolding erase
  erase-above i k [] h = tt
  erase-above i k ((j, v) ∷ m) (lt, h) = elim (Bool-cases (k == j)) [
    | inl same ↦ rw same h
    | inr differs ↦ rw differs (lt, erase-above i k m h)
  ]

  pub erase-IsTable : (k : ℕ) (m : List (ℕ × V)) → IsTable m → IsTable (erase k m)
  unfolding erase
  erase-IsTable k [] h = tt
  erase-IsTable k ((j, v) ∷ m) (above, h) = elim (Bool-cases (k == j)) [
    | inl same ↦ rw same h
    | inr differs ↦ rw differs (erase-above j k m above, erase-IsTable k m h)
  ]

  pub at_key-erase : (k : ℕ) (m : List (ℕ × V)) → IsTable m → at_key k (erase k m) ≡ none
  unfolding at_key erase
  at_key-erase k [] h = refl
  at_key-erase k ((j, v) ∷ m) (above, h) = elim (Bool-cases (k == j)) [
    | inl same ↦ ground (
      arith,
      same,
      above_missing k m (subst (λ i. All (λ e. i < e.0) m) (ground (arith, same)) above),
    )
    | inr differs ↦ ground (arith, differs, at_key-erase k m h)
  ]

  pub at_key-erase_other : (i k : ℕ) (m : List (ℕ × V)) → i ≢ k → at_key i (erase k m) ≡ at_key i m
  unfolding at_key erase
  at_key-erase_other i k [] ne = refl
  at_key-erase_other i k ((j, v) ∷ m) ne = ground (arith, at_key-erase_other i k m ne)

  pub at_key-put :
      (i k : ℕ) (v : V) (m : List (ℕ × V))
      → at_key i (put k v m) ≡ (if i == k then some v else at_key i m)
  unfolding at_key put
  at_key-put i k v [] = refl
  at_key-put i k v ((j, w) ∷ m) = ground (arith, at_key-put i k v m)

  put-above :
      (i k : ℕ) (v : V) (m : List (ℕ × V))
      → i < k
      → All (λ e. i < e.0) m
      → All (λ e. i < e.0) (put k v m)
  unfolding put
  put-above i k v [] lt h = (lt, tt)
  put-above i k v ((j, w) ∷ m) lt (first, h) = elim (Bool-cases (k == j)) [
    | inl same ↦ rw same (lt, h)
    | inr differs ↦ rw differs (elim (Bool-cases (ltb k j)) [
      | inl before ↦ rw before (lt, (first, h))
      | inr after ↦ rw after (first, put-above i k v m lt h)
    ])
  ]

  pub put-IsTable : (k : ℕ) (v : V) (m : List (ℕ × V)) → IsTable m → IsTable (put k v m)
  unfolding put
  put-IsTable k v [] h = (tt, tt)
  put-IsTable k v ((j, w) ∷ m) (above, h) = elim (Bool-cases (k == j)) [
    | inl same ↦ rw same (subst (λ i. All (λ e. i < e.0) m) (ground (arith, same)) above, h)
    | inr differs ↦ rw differs (elim (Bool-cases (ltb k j)) [
      | inl before ↦
          let lt : k < j = ground (arith, before) in
          rw before ((lt, All-map (λ e le. omega (arith, lt, le)) m above), (above, h))
      | inr after ↦
          rw after (put-above j k v m (ground (arith, differs, after)) above, put-IsTable k v m h)
    ])
  ]

module _ {P : Type 0} (process_class : ProcessClass P) where
  pub close_processes :
      (handle : ℕ) (s s' : Server P) (p : P)
      → close process_class handle s ≡ some (p, s')
      → s'.processes ≡ erase handle s.processes
  unfolding close
  close_processes handle s s' p e = elim (Option-cases (found (at_key handle s.processes))) [
    | inl missing ↦ ground (arith, missing)
    | inr (q, there) ↦ ground (arith, there)
  ]

  -- Closing a connection takes its process out of the table and leaves every other one in it; closing
  -- it once more fails the assertion. The table's keys are in order, each once.
  pub close-close :
      (handle other : ℕ) (s s' : Server P) (p : P)
      → IsTable s.processes
      → other ≢ handle
      → close process_class handle s ≡ some (p, s')
      → IsTable s'.processes
        × (at_key other s'.processes ≡ at_key other s.processes)
        × (close process_class handle s' ≡ none)
  unfolding close
  close-close handle other s s' p table ne e =
      let same = close_processes handle s s' p e in
      rw same (
        erase-IsTable handle s.processes table,
        at_key-erase_other other handle s.processes ne,
        rw (close, at_key-erase handle s.processes table) refl,
      )

-- A handler added later is asked only when none of the earlier ones gives a process.
pub handle_ws-add_ws_handler :
    {C P : Type 0} (h : C → Option P) (hs : List (C → Option P)) (ctx : C)
    → handle_ws (add_ws_handler h hs) ctx
      ≡ elim (handle_ws hs ctx) [ none ↦ h ctx | some p ↦ some p ]
unfolding handle_ws
handle_ws-add_ws_handler h [] ctx = elim (Option-cases (h ctx)) [
  | inl passed ↦ rw passed refl
  | inr (p, taken) ↦ rw taken refl
]
handle_ws-add_ws_handler h (g ∷ hs) ctx = elim (Option-cases (g ctx)) [
  | inl passed ↦ rw passed (handle_ws-add_ws_handler h hs ctx)
  | inr (p, taken) ↦ rw taken refl
]
