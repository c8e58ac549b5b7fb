-- ===== src/Provider/PowerShaping/PowerCap/Exact.antt =====
-- The capping of powers as plain arithmetic on natural numbers: the specification of what
-- `NoMoreThanPercentOfTheSum` computes when no int64 wraps.
use interchain_security.Common.{
  ℕ, suc, ◌+◌, ◌-◌, ◌*◌, ◌/◌, ◌≤◌, ◌<◌, ◌≡◌, refl, ap, List, [], ◌∷◌, arith, leb, ◌==◌,
  if◌then◌else◌, All, inl, inr, Bool-cases, length, leb→le, tests, ◌≢◌,
}
use native.Mathlib.Nat.{div-add-mod}
use interchain_security.Sorting.Perms.{sum_by}

abbrev pub Descending : List ℕ → Type 0
Descending [] = Unit
Descending (p ∷ ps) = All (λ x. x ≤ p) ps × Descending ps

more_room : (b d m r : ℕ) → d ≤ m → b * d ≤ r → (1 + b) * d ≤ m + r
more_room b d m r h k = omega arith

-- After the share `q` of `suc k` validators is taken, `k` with room for more than `q` can take the rest.
spare : (r k q d m : ℕ) → q ≡ r / suc k → q < d → k * d ≤ m → r - q ≤ m
spare r k q d m e lt h = grind (arith, div-add-mod r (suc k))

share_le : (r k q : ℕ) → (k ≢ 0 → q ≡ r / k) → k ≢ 0 → q ≤ r
share_le r k q s h = omega (arith, s h)

share_last : (r k q : ℕ) → (k ≢ 0 → q ≡ r / k) → k ≡ 1 → q ≡ r
share_last r k q s h = ground arith

module _ (max_power : ℕ) where
  -- What the list holds above the cap, how many of it are below, and the room below the cap.
  abbrev pub above : List ℕ → ℕ
  above = sum_by λ p. p - max_power

  abbrev pub below : List ℕ → ℕ
  below = sum_by λ p. if leb max_power p then 0 else 1

  abbrev pub room : List ℕ → ℕ
  room = sum_by λ p. max_power - p

  abbrev pub clipped : List ℕ → ℕ
  clipped = sum_by λ p. if leb max_power p then max_power else p

  abbrev pub share : ℕ → ℕ → ℕ → ℕ
  share r k q = if k == 0 then q else r / k

  -- The second loop with the amount `r` left for `k` validators, `q` for each.
  unfoldable pub fill : ℕ → ℕ → ℕ → List ℕ → List ℕ
  fill r k q [] = []
  fill r k q (p ∷ ps) =
      if leb max_power p
      then max_power ∷ fill r k (share r k q) ps
      else if leb max_power (p + q)
      then max_power ∷ (let r' = r - (max_power - p) in fill r' (k - 1) (share r' (k - 1) q) ps)
      else (p + q) ∷ (let r' = r - q in fill r' (k - 1) (share r' (k - 1) q) ps)

  -- No power of the result exceeds the cap.
  pub fill-le : (r k q : ℕ) (ps : List ℕ) → All (λ p. p ≤ max_power) (fill r k q ps)
  unfolding fill
  fill-le r k q [] = tt
  fill-le r k q (p ∷ ps) = ground (
    arith,
    fill-le r k (share r k q) ps,
    fill-le (r - (max_power - p)) (k - 1) (share (r - (max_power - p)) (k - 1) q) ps,
    fill-le (r - q) (k - 1) (share (r - q) (k - 1) q) ps,
  )

  -- The room of a list whose entries are all at most `p` is at least that of `p` for each below.
  room_bound :
      (p : ℕ) (ps : List ℕ)
      → p < max_power
      → All (λ x. x ≤ p) ps
      → below ps * (max_power - p) ≤ room ps
  room_bound p [] h a = omega arith
  room_bound p (x ∷ ps) h a = elim (Bool-cases (leb max_power x)) [
    | inl high ↦ absurd (omega (tests, leb→le max_power x high))
    | inr low ↦ rw low (
        more_room (below ps) (max_power - p) (max_power - x) (room ps) (omega arith)
          (room_bound p ps h a.1))
  ]

  pub fill-cons :
      (r k q p : ℕ) (ps : List ℕ)
      → fill r k q (p ∷ ps) ≡ (
          if leb max_power p
          then max_power ∷ fill r k (share r k q) ps
          else if leb max_power (p + q)
          then max_power ∷ (let r' = r - (max_power - p) in fill r' (k - 1) (share r' (k - 1) q) ps)
          else (p + q) ∷ (let r' = r - q in fill r' (k - 1) (share r' (k - 1) q) ps))
  unfolding fill
  fill-cons r k q p ps = refl

  pub fill-nil : (r k q : ℕ) → fill r k q [] ≡ []
  unfolding fill
  fill-nil r k q = refl

  room-none : (ps : List ℕ) → below ps ≡ 0 → room ps ≡ 0
  room-none [] e = refl
  room-none (p ∷ ps) e = ground (arith, room-none ps)

  pub share_lem : (r k q : ℕ) → k ≢ 0 → share r k q ≡ r / k
  share_lem r k q h = ground arith

  -- The loop hands out all of `r`, if it starts with the right number of validators and share, and
  -- if there is room for `r` below the cap.
  pub sum-fill :
      (r k q : ℕ) (ps : List ℕ)
      → Descending ps
      → k ≡ below ps
      → (k ≡ 0 → r ≡ 0)
      → (k ≢ 0 → q ≡ r / k)
      → r ≤ room ps
      → sum_by (λ p. p) (fill r k q ps) ≡ clipped ps + r
  sum-fill r k q [] d e z s h = omega (arith, ap (sum_by (λ p. p)) (fill-nil r k q))
  sum-fill r k q (p ∷ ps) d e z s h = elim (Bool-cases (leb max_power p)) [
    | inl high ↦
        ground (arith, fill-cons r k q p ps, sum-fill r k (share r k q) ps d.1, share_lem r k q)
    | inr low ↦ elim (Bool-cases (leb max_power (p + q))) [
      | inl full ↦
          let r' = r - (max_power - p) in
          ground (
            arith,
            fill-cons r k q p ps,
            sum-fill r' (k - 1) (share r' (k - 1) q) ps d.1,
            share_lem r' (k - 1) q,
            room-none ps,
            share_le r k q s,
          )
      | inr part ↦
          let r' = r - q in
          ground (
            arith,
            fill-cons r k q p ps,
            sum-fill r' (k - 1) (share r' (k - 1) q) ps d.1,
            share_lem r' (k - 1) q,
            share_last r k q s,
            share_le r k q s,
            spare r (below ps) q (max_power - p) (room ps),
            room_bound p ps,
          )
    ]
  ]

  clipped-above : (ps : List ℕ) → clipped ps + above ps ≡ sum_by (λ p. p) ps
  clipped-above [] = omega arith
  clipped-above (p ∷ ps) = ground (arith, clipped-above ps)

  room-above : (ps : List ℕ) → sum_by (λ p. p) ps + room ps ≡ length ps * max_power + above ps
  room-above [] = omega arith
  room-above (p ∷ ps) = omega (arith, room-above ps)

  -- Started as the code starts it, the loop keeps the sum, if the cap leaves room for it.
  pub sum-fill_start :
      (ps : List ℕ)
      → Descending ps
      → sum_by (λ p. p) ps ≤ length ps * max_power
      → sum_by (λ p. p) (fill (above ps) (below ps) (share (above ps) (below ps) 0) ps)
        ≡ sum_by (λ p. p) ps
  sum-fill_start ps d h =
      let fits : above ps ≤ room ps = omega (arith, room-above ps) in
      let r = above ps in
      let k = below ps in
      omega (
        arith,
        clipped-above ps,
        sum-fill r k (share r k 0) ps d refl (λ z. omega (arith, room-none ps z)) (share_lem r k 0)
            fits,
      )
