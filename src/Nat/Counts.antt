-- ===== src/Nat/Counts.antt =====
-- The live connections of the router, counted by client address.
use sidero_proxy.Base.{
  ℕ, suc, ◌-◌, ◌≡◌, List, [], ◌∷◌, if◌then◌else◌, Bytes, bytes_eq, bytes_eq_iff, arith,
}

-- A connection that holds a reference: the client's address and the internal one.
abbrev pub Session : Type 0
Session = Bytes × Bytes

unfoldable pub sessions_of : Bytes → List Session → ℕ
sessions_of k [] = 0
sessions_of k ((j, i) ∷ live) =
    if bytes_eq j k then suc (sessions_of k live) else sessions_of k live

-- The connections without the first one of address `k`.
unfoldable pub ended : Bytes → List Session → List Session
ended k [] = []
ended k ((j, i) ∷ live) = if bytes_eq j k then live else (j, i) ∷ ended k live

pub sessions_of-ended :
    (k j : Bytes) (live : List Session)
    → sessions_of j (ended k live)
      ≡ (if bytes_eq k j then sessions_of j live - 1 else sessions_of j live)
unfolding sessions_of ended
sessions_of-ended k j [] = ground arith
sessions_of-ended k j ((h, i) ∷ live) =
    ground (arith, bytes_eq_iff h k, bytes_eq_iff h j, bytes_eq_iff k j, sessions_of-ended k j live)
