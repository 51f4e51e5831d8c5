-- ===== src/WebSocket/Racing/Places.antt =====
-- What a connection has got while send_to_all stands at a place of the set.
use ngp_encode_server.Base.{
  ℕ, ◌<◌, ◌≤◌, ◌≡◌, ◌≢◌, ap, ◌⊎◌, inl, inr, List, [], ◌∷◌, Bool, true, false, ltb, ◌==◌,
  if◌then◌else◌, Bool-cases, arith,
}
use ngp_encode_server.OrderedMap.{Entries, IsSorted, lookup}
use ngp_encode_server.OrderedMap.Order.{lookup_below, IsAbove-IsSorted}
use ngp_encode_server.WebSocket.Connections.{Handler, opens, closes}
use ngp_encode_server.WebSocket.Broadcast.{in_set}
use ngp_encode_server.WebSocket.Racing.{
  Loop, waits, copied, sent, ended, threw, lost, next_key, first_key, arrive, invalidate,
}

-- `h` has `got` the packet, or is not one of the connections that are `kept`.
module _ (payload : List ℕ) (kept : Bool) (h : ℕ) (old : List (List ℕ)) where
  abbrev pub Due : List (List ℕ) → Type 0
  Due got = (got ≡ payload ∷ old) ⊎ ((kept ≡ false) × (got ≡ old))

  -- What `h` has got while the loop stands somewhere: the packet if its place is behind the loop, and
  -- nothing if it is in front.
  abbrev pub Got : Loop → List (List ℕ) → Type 0
  Got waits got = got ≡ old
  Got (copied k valid) got = (k ≤ h → got ≡ old) × (h < k → Due got)
  Got (sent k valid) got = (k < h → got ≡ old) × (h ≤ k → Due got)
  Got ended got = Due got
  Got threw got = (got ≡ payload ∷ old) ⊎ (got ≡ old)
  Got lost got = (got ≡ payload ∷ old) ⊎ (got ≡ old)

  pub first-Got :
      (m : Entries (Unit {0})) (got : List (List ℕ))
      → IsSorted m
      → (kept ≡ true → in_set h m ≡ true)
      → got ≡ old
      → Got (arrive (first_key m)) got
  unfolding arrive first_key lookup
  first-Got [] got s there e = inr (ground arith, e)
  first-Got ((k, _) ∷ m) got s there e =
      ((λ le. e), (λ lt. inr (ground (arith, there, lookup_below h k m s), e)))

  pub next-Got :
      (k : ℕ) (valid : Bool) (m : Entries (Unit {0})) (got : List (List ℕ))
      → IsSorted m
      → (kept ≡ true → k < h → in_set h m ≡ true)
      → Got (sent k valid) got
      → Got (arrive (next_key k m)) got
  unfolding arrive next_key lookup
  next-Got k valid [] got s there v = elim (Bool-cases (ltb k h)) [
    | inl ahead ↦ inr (ground (arith, there), v.0 (ground arith))
    | inr behind ↦ v.1 (ground arith)
  ]
  next-Got k valid ((j, _) ∷ m) got s there v = elim (Bool-cases (ltb k j)) [
    | inl found ↦
        let less : k < j = ground arith in
        rw found (
          (λ le. v.0 (omega arith)),
          λ lt. elim (Bool-cases (ltb k h)) [
            | inl ahead ↦ inr (ground (arith, there, lookup_below h j m s), v.0 (ground arith))
            | inr behind ↦ v.1 (ground arith)
          ],
        )
    | inr before ↦
        rw before
          (next-Got k valid m got (IsAbove-IsSorted j m s) (λ e lt. ground (arith, there e lt)) v)
  ]

  either : (got : List (List ℕ)) → Due got → (got ≡ payload ∷ old) ⊎ (got ≡ old)
  either got v = elim v [ inl e ↦ inl e | inr e ↦ inr e.1 ]

  -- In any place of the loop `h` has got the packet once or not at all.
  pub at_most_once :
      (l : Loop) (got : List (List ℕ)) → Got l got → (got ≡ payload ∷ old) ⊎ (got ≡ old)
  at_most_once waits got v = inr v
  at_most_once (copied k valid) got v = elim (Bool-cases (ltb h k)) [
    | inl behind ↦ either got (v.1 (ground arith))
    | inr ahead ↦ inr (v.0 (ground arith))
  ]
  at_most_once (sent k valid) got v = elim (Bool-cases (ltb k h)) [
    | inl ahead ↦ inr (v.0 (ground arith))
    | inr behind ↦ either got (v.1 (ground arith))
  ]
  at_most_once ended got v = either got v
  at_most_once threw got v = v
  at_most_once lost got v = v

  short :
      (l : Loop) (got : List (List ℕ))
      → l ≢ ended
      → Got l got
      → (got ≡ payload ∷ old) ⊎ ((got ≡ old) × ((kept ≡ false) ⊎ (l ≢ ended)))
  short l got on v = elim (at_most_once l got v) [ inl e ↦ inl e | inr e ↦ inr (e, inr on) ]

  pub outcome :
      (l : Loop) (got : List (List ℕ))
      → Got l got
      → (got ≡ payload ∷ old) ⊎ ((got ≡ old) × ((kept ≡ false) ⊎ (l ≢ ended)))
  outcome ended got v = elim v [ inl e ↦ inl e | inr e ↦ inr (e.1, inl e.0) ]
  outcome waits got v = inr (v, inr (λ e. cc))
  outcome (copied k valid) got v = short (copied k valid) got (λ e. cc) v
  outcome (sent k valid) got v = short (sent k valid) got (λ e. cc) v
  outcome threw got v = short threw got (λ e. cc) v
  outcome lost got v = short lost got (λ e. cc) v

  pub sent-Got :
      (k : ℕ) (valid : Bool) (got : List (List ℕ))
      → Got (copied k valid) got
      → Got (sent k valid) (if k == h then payload ∷ got else got)
  sent-Got k valid got v = elim (Bool-cases (k == h)) [
    | inl same ↦
        let none_yet = v.0 (ground arith) in
        rw same ((λ lt. absurd (ground arith)), (λ le. inl (ap (λ g. payload ∷ g) none_yet)))
    | inr other ↦ rw other ((λ lt. v.0 (omega arith)), (λ le. v.1 (ground arith)))
  ]

  pub invalidate-Got :
      (x : Handler) (l : Loop) (got : List (List ℕ)) → Got l got → Got (invalidate x l) got
  unfolding invalidate
  invalidate-Got (opens k) l got v = v
  invalidate-Got (closes k) (copied j valid) got v = elim (Bool-cases (k == j)) [
    | inl e ↦ rw e v
    | inr e ↦ rw e v
  ]
  invalidate-Got (closes k) (sent j valid) got v = elim (Bool-cases (k == j)) [
    | inl e ↦ rw e v
    | inr e ↦ rw e v
  ]
  invalidate-Got (closes k) waits got v = v
  invalidate-Got (closes k) ended got v = v
  invalidate-Got (closes k) threw got v = v
  invalidate-Got (closes k) lost got v = v
