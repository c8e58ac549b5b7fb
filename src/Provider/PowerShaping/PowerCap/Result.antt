-- ===== src/Provider/PowerShaping/PowerCap/Result.antt =====
-- What the capping of powers gives: no power above the cap of the total, the same validators, and the same total
-- power whenever the cap leaves room for it.
use mathlib.Core.List.{Perm}
use mathlib.Core.List.Perm
use interchain_security.Common.{
  ℕ, ◌*◌, ◌/◌, ◌≤◌, ◌<◌, ◌≡◌, ◌⊎◌, inl, inr, Bool-cases, leb, refl, ap, List, [], ◌∷◌, arith, ◌==◌,
  if◌then◌else◌, All, map, length, length-map, ◌∙◌, sym, subst, false,
}
use interchain_security.Sorting.{SortSlice, Ordered}
use interchain_security.Sorting.Perms.{sum_by, sum_by-perm, length-perm}
use interchain_security.Provider.Decimals.{LegacyDec, TruncatesPercent}
use interchain_security.Provider.ValidatorSet.{ConsensusValidator}
use interchain_security.Provider.PowerShaping.PowerCap.{
  by_power, max_power_of, spread, Spread, no_more_than_percent_of_the_sum,
}
use interchain_security.Provider.PowerShaping.PowerCap.Exact.{
  above, below, fill, fill-le, sum-fill_start, Descending, share,
}
use interchain_security.Provider.PowerShaping.PowerCap.Agreement.{
  max_total, power_of, powers_of, total, IsBounded, sum-eq-total, spread-eq-fill, start_spread-eq,
  start-Runs,
}

-- The largest power that a validator may have: the percentage of the total, rounded down, at least 1.
abbrev pub cap_at : ℕ → ℕ → ℕ
cap_at sum percent = let max_power = sum * percent / 100 in if max_power == 0 then 1 else max_power

abbrev pub cap_of : List ConsensusValidator → ℕ → ℕ
cap_of vs percent = cap_at (total vs) percent

percent-le : (t p : ℕ) → p ≤ 100 → t * p / 100 ≤ t
percent-le t p h = grind arith

cap_of-le :
    (vs : List ConsensusValidator) (percent : ℕ)
    → total vs ≤ max_total
    → percent ≤ 100
    → cap_of vs percent ≤ max_total
cap_of-le vs percent h k = ground (arith, percent-le (total vs) percent k)

max_power_of-eq :
    (d : LegacyDec) (vs : List ConsensusValidator) (percent : ℕ)
    → TruncatesPercent d
    → total vs ≤ max_total
    → max_power_of d vs percent ≡ cap_of vs percent
unfolding max_power_of
max_power_of-eq d vs percent t h = rw (sum-eq-total vs h, t)

total-powers : (vs : List ConsensusValidator) → sum_by (λ p. p) (powers_of vs) ≡ total vs
total-powers [] = refl
total-powers (v ∷ vs) = omega (arith, total-powers vs)

sorted-IsBounded : (vs ws : List ConsensusValidator) → Perm ws vs → IsBounded vs → IsBounded ws
sorted-IsBounded vs ws p b = record {
  total_le = omega (arith, sum_by-perm power_of p, b.total_le);
  count_le = omega (arith, length-perm p, b.count_le);
}

Ordered-Descending :
    (vs : List ConsensusValidator) → Ordered by_power vs → Descending (powers_of vs)
Ordered-Descending [] o = tt
Ordered-Descending (v ∷ vs) o = (heads vs o.0, Ordered-Descending vs o.1)
  where
    heads :
        (ws : List ConsensusValidator)
        → All (λ w. by_power w v ≡ false) ws
        → All (λ x. x ≤ v.power) (powers_of ws)
    heads [] h = tt
    heads (w ∷ ws) h = (ground arith, heads ws h.1)

-- A validator without its power.
abbrev pub identity : ConsensusValidator → ℕ × ℕ × ℕ
identity v = (v.provider_cons_addr, v.public_key, v.join_height)

spread-identity :
    (c : ℕ) (vs : List ConsensusValidator) (s : Spread)
    → map identity (spread c s vs) ≡ map identity vs
unfolding spread
spread-identity c [] s = refl
spread-identity c (v ∷ vs) s = ap (◌∷◌ (identity v)) (spread-identity c vs _)

module _ (d : LegacyDec) (by : SortSlice by_power) (vs : List ConsensusValidator) (percent : ℕ)
    (exact : TruncatesPercent d) (bounded : IsBounded vs) (at_most : percent ≤ 100) where
  -- The powers of the result, as the exact loop computes them.
  result-powers :
      let cap = cap_of vs percent in
      let ps = powers_of (by.sort vs) in
      powers_of (no_more_than_percent_of_the_sum d by vs percent)
      ≡ fill cap (above cap ps) (below cap ps) (share cap (above cap ps) (below cap ps) 0) ps
  unfolding no_more_than_percent_of_the_sum
  result-powers =
      let cap = cap_of vs percent in
      let ws = by.sort vs in
      let small = cap_of-le vs percent bounded.total_le at_most in
      let sb = sorted-IsBounded vs ws (by.sort_perm vs) bounded in
      rw (max_power_of-eq d vs percent exact bounded.total_le, start_spread-eq cap small ws sb)
        (spread-eq-fill cap small _ ws (start-Runs cap small ws sb) sb)

  All-powers :
      (c : ℕ) (ws : List ConsensusValidator)
      → All (λ p. p ≤ c) (powers_of ws)
      → All (λ w. w.power ≤ c) ws
  All-powers c [] h = tt
  All-powers c (w ∷ ws) h = (h.0, All-powers c ws h.1)

  -- The total power is unchanged whenever a distribution under the cap exists.
  pub no_more_than_percent-total :
      total vs ≤ length vs * cap_of vs percent
      → total (no_more_than_percent_of_the_sum d by vs percent) ≡ total vs
  no_more_than_percent-total fits =
      let cap = cap_of vs percent in
      let ws = by.sort vs in
      let p = by.sort_perm vs in
      let same = sum_by-perm power_of p in
      sym (total-powers (no_more_than_percent_of_the_sum d by vs percent))
      ∙ ap (sum_by (λ x. x)) result-powers
      ∙ sum-fill_start cap (powers_of ws) (Ordered-Descending ws (by.sort_ordered vs)) (
          subst (λ n. sum_by (λ x. x) (powers_of ws) ≤ n * cap)
            (sym (length-map power_of ws ∙ length-perm p))
            (omega (arith, total-powers ws, same, fits)))
      ∙ total-powers ws
      ∙ same

  -- No validator of the result has more than the given percentage of the total power that the validators had
  -- before (rounded down, and at least 1), for any sort that meets its contract. None has more than this
  -- percentage of the total power of the result either, unless the validators are too few for it: the
  -- capped powers of all of them together do not reach the total power that they had before.
  pub no_more_than_percent-le :
      let result = no_more_than_percent_of_the_sum d by vs percent in
      All (λ v. v.power ≤ cap_of vs percent) result
      × (All (λ v. v.power ≤ cap_of result percent) result
          ⊎ (length vs * cap_of vs percent < total vs))
  no_more_than_percent-le = (
    capped,
    elim (le_or_lt (total vs) (length vs * cap_of vs percent)) [
      | inl fits ↦ inl (
          subst
            (λ n.
              All (λ v. v.power ≤ cap_at n percent)
                (no_more_than_percent_of_the_sum d by vs percent))
            (sym (no_more_than_percent-total fits)) capped)
      | inr short ↦ inr short
    ],
  )
    where
      capped :
          All (λ v. v.power ≤ cap_of vs percent) (no_more_than_percent_of_the_sum d by vs percent)
      capped = All-powers _ _ (rw result-powers (fill-le _ _ _ _ _))

      le_or_lt : (m n : ℕ) → (m ≤ n) ⊎ (n < m)
      le_or_lt m n = elim (Bool-cases (leb m n)) [
        | inl small ↦ inl (ground (arith, small))
        | inr large ↦ inr (ground (arith, large))
      ]

-- The result has the validators of the input, each with its address, key and join height: only
-- powers change, and no two validators are mixed up.
pub no_more_than_percent-perm :
    (d : LegacyDec) (by : SortSlice by_power) (vs : List ConsensusValidator) (percent : ℕ)
    → Perm (map identity (no_more_than_percent_of_the_sum d by vs percent)) (map identity vs)
unfolding no_more_than_percent_of_the_sum
no_more_than_percent-perm d by vs percent =
    rw (spread-identity _ _ _) (Perm.map identity (by.sort_perm vs))
