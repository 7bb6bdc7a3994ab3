-- ===== src/Router/Listener.antt =====
-- internal/router/router.go: `Start` and `serveListener`, the loop that accepts connections. `Accept`
-- is what the listener answers each time; a connection is handled on its own from then on.
use sidero_proxy.Base.{
  ◌≡◌, ap, Bool, true, false, not, ◌||◌, Option, none, some, List, [], ◌∷◌, ◌++◌, All,
  if◌then◌else◌, Result, ok, err, Bytes, codes, arith,
}
use sidero_proxy.Base.Integers.{ℤ, itoa_int}
use sidero_proxy.Nft.{Error}

-- A connection, or an error: whether the context has ended by then, and whether it is temporary.
pub data Accept (C : Type 0) : Type 0 where
  accepted : C → Accept C
  refused : (ended temporary : Bool) → Error → Accept C

-- What `Start` sets going: the hook, and a handler for a connection.
pub data Going (C : Type 0) : Type 0 where
  ready : Bool → Going C
  handle : C → Going C

abbrev pub started :
    {C : Type 0}
    → Going C
    → List (Going C) × Option (Result Error (Unit {0}))
    → List (Going C) × Option (Result Error (Unit {0}))
started g (gs, outcome) = (g ∷ gs, outcome)

-- `net.JoinHostPort("0.0.0.0", …)`
abbrev pub listen_addr : ℤ → Bytes
listen_addr port = codes "0.0.0.0:" ++ itoa_int port

module _ {C : Type 0} where
  -- The loop on what is accepted so far, with its result once it has returned.
  unfoldable pub serve_listener :
      Bytes → List (Accept C) → List (Going C) × Option (Result Error (Unit {0}))
  serve_listener addr [] = ([], none)
  serve_listener addr (accepted c ∷ accepts) = started (handle c) (serve_listener addr accepts)
  serve_listener addr (refused ended temporary e ∷ accepts) =
      let next = serve_listener addr accepts in
      if ended
      then ([], some (ok tt))
      else if temporary
      then next
      else ([], some (err (codes "accept on " ++ (addr ++ (codes ": " ++ e)))))

  -- The deferred call of the hook, when the loop has returned.
  abbrev pub not_ready :
      List (Going C) × Option (Result Error (Unit {0}))
      → List (Going C) × Option (Result Error (Unit {0}))
  not_ready (going, none) = (going, none)
  not_ready (going, some result) = (going ++ ready false ∷ [], some result)

  -- `Start`, with what `listen` answers: the address of the listener, or an error. The hook for the
  -- readiness is set, as main sets it.
  unfoldable pub start :
      ℤ → Result Error Bytes → List (Accept C) → List (Going C) × Option (Result Error (Unit {0}))
  unfolding serve_listener
  start port (err e) accepts =
      ([], some (err (codes "listen on " ++ (listen_addr port ++ (codes ": " ++ e)))))
  start port (ok addr) accepts = started (ready true) (not_ready (serve_listener addr accepts))

-- An answer after which the loop goes on, and the connection in it.
abbrev pub GoesOn : {C : Type 0} → Accept C → Type 0
GoesOn (accepted c) = Unit
GoesOn (refused ended temporary e) = (ended ≡ false) × (temporary ≡ true)

unfoldable pub handlers : {C : Type 0} → List (Accept C) → List (Going C)
handlers [] = []
handlers (accepted c ∷ accepts) = handle c ∷ handlers accepts
handlers (refused ended temporary e ∷ accepts) = handlers accepts

-- The result of the loop for the error that ends it.
abbrev pub result_of : Bytes → Bool → Error → Result Error (Unit {0})
result_of addr ended e =
    if ended then ok tt else err (codes "accept on " ++ (addr ++ (codes ": " ++ e)))

module _ {C : Type 0} (addr : Bytes) (ended temporary : Bool) (e : Error)
    (ends : (ended || not temporary) ≡ true) where
  serve_listener_lem :
      (before after : List (Accept C))
      → All GoesOn before
      → serve_listener addr (before ++ refused ended temporary e ∷ after)
        ≡ (handlers before, some (result_of addr ended e))
  unfolding serve_listener handlers
  serve_listener_lem [] after all = ground (arith, ends)
  serve_listener_lem (accepted c ∷ before) after (_, all) =
      ap (started (handle c)) (serve_listener_lem before after all)
  serve_listener_lem (refused f t e' ∷ before) after ((going, soft), all) =
      ground (arith, going, soft, serve_listener_lem before after all)

  -- Once the listener gives an error that is not temporary, or the context has ended, `Start` returns:
  -- it has announced that the proxy is ready, has handed each connection from before to a handler, in
  -- their order and whatever temporary errors came between, and announces last that the proxy is not
  -- ready. It returns an error only if the context has not ended.
  pub start_returns :
      (port : ℤ) (before after : List (Accept C))
      → All GoesOn before
      → start port (ok addr) (before ++ refused ended temporary e ∷ after)
        ≡ (ready true ∷ (handlers before ++ ready false ∷ []), some (result_of addr ended e))
  unfolding start
  start_returns port before after all =
      ap (λ t. started (ready true) (not_ready t)) (serve_listener_lem before after all)
