-- ===== src/WebSocket/Racing/Loses.antt =====
-- A connection that closes while the loop of send_to_all stands on it.
use ngp_encode_server.Base.{
  ℕ, zero, suc, ◌+◌, ◌<◌, ◌≤◌, ◌≡◌, refl, sym, ap, subst, ◌∙◌, inl, inr, List, [], ◌∷◌, some, Bool,
  true, false, ltb, ◌==◌, if◌then◌else◌, ◌&&◌, Bool-cases, arith, ==_iff,
}
use ngp_encode_server.OrderedMap.{Entries, IsSorted, lookup}
use ngp_encode_server.OrderedMap.Order.{lookup_below, IsAbove-IsSorted}
use ngp_encode_server.WebSocket.{WebSocketServer}
use ngp_encode_server.WebSocket.Connections.{opens, closes, has}
use ngp_encode_server.WebSocket.Broadcast.{in_set}
use ngp_encode_server.WebSocket.Racing.{
  Loop, waits, copied, sent, threw, lost, Scene, next_key, first_key, arrive, enter, send, advance,
  invalidate, Move, goes_on, handles, go_on, move, race,
}

-- Every m_server.send returns, and no handler runs but the close handler of one connection.
abbrev pub only_closes : ℕ → List Move → Bool
only_closes k [] = true
only_closes k (goes_on takes ∷ ms) = takes && only_closes k ms
only_closes k (handles (closes j) ∷ ms) = (j == k) && only_closes k ms
only_closes k (handles (opens j) ∷ ms) = false

-- The loop finds an element on its way to one further on.
next_found :
    (j k : ℕ) (m : Entries (Unit {0}))
    → IsSorted m
    → in_set k m ≡ true
    → j < k
    → (i : ℕ) × (next_key j m ≡ some i) × (j < i) × (i ≤ k)
unfolding next_key lookup
next_found j k [] s there lt = ground arith
next_found j k ((i, _) ∷ m) s there lt = elim (Bool-cases (ltb j i)) [
  | inl ahead ↦ rw ahead (i, refl, ground arith, ground (arith, lookup_below k i m s))
  | inr behind ↦ rw behind (next_found j k m (IsAbove-IsSorted i m s) (ground arith) lt)
]

first_found :
    (k : ℕ) (m : Entries (Unit {0}))
    → IsSorted m
    → in_set k m ≡ true
    → (i : ℕ) × (first_key m ≡ some i) × (i ≤ k)
unfolding first_key lookup
first_found k [] s there = ground arith
first_found k ((i, _) ∷ m) s there = (i, refl, ground (arith, lookup_below k i m s))

module _ (payload : List ℕ) (k : ℕ) where
  abbrev Loses : Scene → Type 0
  Loses c = (ms : List Move) × (only_closes k ms ≡ true) × ((race payload ms c).loop ≡ lost)

  -- The thread goes on from a place of the loop.
  step-Loses : (l : Loop) (c : Scene) → c.loop ≡ l → Loses (go_on true payload l c) → Loses c
  unfolding race move
  step-Loses l c e (ms, only, ends) =
      (goes_on true ∷ ms, only, ap (λ p. (race payload ms (go_on true payload p c)).loop) e ∙ ends)

  -- The loop has sent the packet to an element and goes on to the next one.
  next-Loses :
      (j i : ℕ) (c : Scene)
      → c.loop ≡ copied j true
      → next_key j c.server.connections ≡ some i
      → ((d : Scene)
          → d.loop ≡ copied i true
          → d.server.connections ≡ c.server.connections
          → Loses d)
      → Loses c
  unfolding go_on send advance arrive
  next-Loses j i c e next on = step-Loses (copied j true) c e (
      step-Loses (sent j true) (send true payload j true c) refl
        (on (advance j true (send true payload j true c)) (ap arrive next) refl))

  -- The loop stands on the element that closes.
  here-Loses : (c : Scene) → c.loop ≡ copied k true → Loses c
  unfolding race move go_on send advance invalidate
  here-Loses c e = step-Loses (copied k true) c e (
    handles (closes k) ∷ goes_on true ∷ [],
    ground arith,
    let same : (k == k) ≡ true = ground arith in rw same refl,
  )

  on-Loses :
      (fuel j : ℕ) (c : Scene)
      → k < j + fuel
      → c.loop ≡ copied j true
      → j ≤ k
      → IsSorted c.server.connections
      → has k c.server ≡ true
      → Loses c
  on-Loses zero j c enough e le set there = absurd (omega arith)
  on-Loses (suc fuel) j c enough e le set there = elim (Bool-cases (j == k)) [
    | inl same ↦ here-Loses c (e ∙ ap (λ i. copied i true) ((==_iff j k).0 same))
    | inr other ↦
        let (i, next, lt, ge) = next_found j k c.server.connections set there (ground arith) in
        next-Loses j i c e next (λ d at same.
          on-Loses fuel i d (omega arith) at ge (subst IsSorted (sym same) set)
            (subst (λ m. in_set k m ≡ true) (sym same) there))
  ]

-- While send_to_all runs on a server, a single close handler at the wrong time is enough: for each open
-- connection there is an order of the steps, in which every m_server.send returns and no handler runs
-- but the close handler of that connection, that ends with the loop moving an iterator whose element
-- is erased.
pub closing_loses :
    (payload : List ℕ) (s : WebSocketServer) (k : ℕ)
    → s.running ≡ true
    → IsSorted s.connections
    → has k s ≡ true
    → (ms : List Move) × (only_closes k ms ≡ true)
      × ((race payload ms (record { server = s; loop = waits })).loop ≡ lost)
unfolding go_on enter arrive
closing_loses payload s k run set there =
    let (i, first, le) = first_found k s.connections set there in
    let start : Scene = record { server = s; loop = waits } in
    let entered : Scene = record { server = s; loop = arrive (first_key s.connections) } in
    let refused : Scene = record { server = s; loop = threw } in
    let same : enter start ≡ entered = ap (λ b. if b then entered else refused) run in
    step-Loses payload k waits start refl (
      subst (Loses payload k) (sym same)
        (on-Loses payload k (suc k) i entered (omega arith) (ap arrive first) le set there))
