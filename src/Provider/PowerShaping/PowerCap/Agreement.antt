-- ===== src/Provider/PowerShaping/PowerCap/Agreement.antt =====
-- Below the limit on the total voting power no int64 wraps: the code computes the exact amounts.
use interchain_security.Common.{
  ℕ, ◌+◌, ◌-◌, ◌≤◌, ◌<◌, ◌≡◌, ◌≢◌, List, [], ◌∷◌, arith, leb, if◌then◌else◌, inl, inr, Bool-cases,
  map, length, length-map, ◌∙◌, sym,
}
use native.Mathlib.Nat.{div-le_self, zero-add}
use interchain_security.Common.Words.{two64, add64_exact, sub64_exact, ge_i64_exact, div_i64_exact}
use interchain_security.Sorting.Perms.{sum_by}
use interchain_security.Provider.ValidatorSet.{ConsensusValidator}
use interchain_security.Provider.PowerShaping.PowerCap.{
  Spread, sum_from, sum, excess, count_below, next_share, give, taken, spread, start_spread,
}
use interchain_security.Provider.PowerShaping.PowerCap.Exact.{
  above, below, share, fill, fill-cons, fill-nil,
}

-- MaxTotalVotingPower of the consensus engine, and a bound on the size of a set.
abbrev pub max_total : ℕ
max_total = 0xfff_ffff_ffff_ffff

abbrev pub power_of : ConsensusValidator → ℕ
power_of v = v.power

abbrev pub powers_of : List ConsensusValidator → List ℕ
powers_of = map power_of

abbrev pub total : List ConsensusValidator → ℕ
total = sum_by power_of

pub record IsBounded (vs : List ConsensusValidator) : Type 0 where
  pub total_le : total vs ≤ max_total
  pub count_le : length vs ≤ max_total

sum_from-eq :
    (s : ℕ) (vs : List ConsensusValidator) → s + total vs < two64 → sum_from s vs ≡ s + total vs
unfolding sum_from
sum_from-eq s [] h = omega arith
sum_from-eq s (v ∷ vs) h =
    rw (add64_exact s v.power (omega arith))
      (omega (arith, sum_from-eq (s + v.power) vs (omega arith)))

pub sum-eq-total : (vs : List ConsensusValidator) → total vs ≤ max_total → sum vs ≡ total vs
unfolding sum
sum-eq-total vs h = omega (arith, sum_from-eq 0 vs (omega arith))

module _ (max_power : ℕ) (small : max_power ≤ max_total) where
  excess-eq :
      (r : ℕ) (vs : List ConsensusValidator)
      → r + total vs ≤ max_total
      → excess max_power r vs ≡ r + above max_power (powers_of vs)
  unfolding excess
  excess-eq r [] h = omega arith
  excess-eq r (v ∷ vs) h = elim (Bool-cases (leb max_power v.power)) [
    | inl high ↦ ground (
      arith,
      ge_i64_exact v.power max_power,
      sub64_exact v.power max_power,
      add64_exact r (v.power - max_power),
      excess-eq (r + (v.power - max_power)) vs,
    )
    | inr low ↦ ground (arith, ge_i64_exact v.power max_power, excess-eq r vs)
  ]

  count_below-eq :
      (c : ℕ) (vs : List ConsensusValidator)
      → total vs ≤ max_total
      → c + length vs ≤ max_total
      → count_below max_power c vs ≡ c + below max_power (powers_of vs)
  unfolding count_below
  count_below-eq c [] h k = omega arith
  count_below-eq c (v ∷ vs) h k = ground (
    arith,
    ge_i64_exact v.power max_power,
    add64_exact c 1,
    count_below-eq c vs,
    count_below-eq (c + 1) vs,
  )

  -- What holds of the running amounts before each round.
  pub record Runs (s : Spread) (vs : List ConsensusValidator) : Type 0 where
    pub power_le : s.remaining_power ≤ max_total
    pub share_le : s.power_per_validator ≤ max_total
    pub counted : s.remaining_validators ≡ below max_power (powers_of vs)
    pub affordable : s.remaining_validators ≢ 0 → s.power_per_validator ≤ s.remaining_power

  give-eq :
      (s : Spread) (v : ConsensusValidator)
      → s.power_per_validator ≤ max_total
      → v.power ≤ max_total
      → give max_power s v ≡ (
          if leb max_power v.power
          then max_power
          else if leb max_power (v.power + s.power_per_validator)
          then max_power
          else v.power + s.power_per_validator)
  unfolding give
  give-eq s v h k = ground (
    arith,
    ge_i64_exact v.power max_power,
    add64_exact v.power s.power_per_validator,
    ge_i64_exact (v.power + s.power_per_validator) max_power,
  )

  next_share-eq :
      (s : Spread)
      → s.remaining_power ≤ max_total
      → s.remaining_validators ≤ max_total
      → next_share s ≡ record s {
        power_per_validator =
            share max_power s.remaining_power s.remaining_validators s.power_per_validator;
      }
  next_share-eq s h k = ground (arith, div_i64_exact s.remaining_power s.remaining_validators)

  above-le : (vs : List ConsensusValidator) → above max_power (powers_of vs) ≤ total vs
  above-le [] = omega arith
  above-le (v ∷ vs) = omega (arith, above-le vs)

  abbrev pub amounts : ℕ → ℕ → ℕ → Spread
  amounts r k q = record {
    remaining_power = r;
    remaining_validators = k;
    power_per_validator = share max_power r k q;
  }

  -- The running amounts after one round, by the branch that it took.
  abbrev after : Spread → ℕ → Spread
  after s p =
      if leb max_power p
      then amounts s.remaining_power s.remaining_validators s.power_per_validator
      else if leb max_power (p + s.power_per_validator)
      then amounts (s.remaining_power - (max_power - p)) (s.remaining_validators - 1)
          s.power_per_validator
      else amounts (s.remaining_power - s.power_per_validator) (s.remaining_validators - 1)
          s.power_per_validator

  taken-eq :
      (s : Spread) (v : ConsensusValidator) (vs : List ConsensusValidator)
      → Runs s (v ∷ vs)
      → v.power ≤ max_total
      → s.remaining_validators ≤ max_total
      → taken max_power s v ≡ (
          if leb max_power v.power
          then s
          else if leb max_power (v.power + s.power_per_validator)
          then record s {
            remaining_power = s.remaining_power - (max_power - v.power);
            remaining_validators = s.remaining_validators - 1;
          }
          else record s {
            remaining_power = s.remaining_power - s.power_per_validator;
            remaining_validators = s.remaining_validators - 1;
          })
  unfolding taken
  taken-eq s v vs i h k = elim (Bool-cases (leb max_power v.power)) [
    | inl high ↦ ground (arith, ge_i64_exact v.power max_power)
    | inr low ↦ ground (
      arith,
      ge_i64_exact v.power max_power,
      ge_i64_exact (v.power + s.power_per_validator) max_power,
      add64_exact v.power s.power_per_validator,
      sub64_exact max_power v.power,
      sub64_exact (v.power + s.power_per_validator) v.power,
      sub64_exact s.remaining_power (max_power - v.power),
      sub64_exact s.remaining_power (v.power + s.power_per_validator - v.power),
      sub64_exact s.remaining_validators 1,
    )
  ]

  after-eq :
      (s : Spread) (v : ConsensusValidator) (vs : List ConsensusValidator)
      → Runs s (v ∷ vs)
      → v.power ≤ max_total
      → s.remaining_validators ≤ max_total
      → next_share (taken max_power s v) ≡ after s v.power
  after-eq s v vs i h k =
      next_share-eq (taken max_power s v) (ground (arith, taken-eq s v vs i h k))
        (ground (arith, taken-eq s v vs i h k))
      ∙ ground (arith, taken-eq s v vs i h k)

  share-le : (r k q : ℕ) → k ≢ 0 → share max_power r k q ≤ r
  share-le r k q h = ground (arith, div-le_self r k)

  share-bounded : (r k q b : ℕ) → r ≤ b → q ≤ b → share max_power r k q ≤ b
  share-bounded r k q b h g = ground (arith, div-le_self r k)

  after-Runs :
      (s : Spread) (v : ConsensusValidator) (vs : List ConsensusValidator)
      → Runs s (v ∷ vs)
      → Runs (after s v.power) vs
  after-Runs s v vs i = ground (
    arith,
    share-le s.remaining_power s.remaining_validators s.power_per_validator,
    share-bounded s.remaining_power s.remaining_validators s.power_per_validator max_total,
    share-le (s.remaining_power - (max_power - v.power)) (s.remaining_validators - 1)
        s.power_per_validator,
    share-bounded (s.remaining_power - (max_power - v.power)) (s.remaining_validators - 1)
        s.power_per_validator max_total,
    share-le (s.remaining_power - s.power_per_validator) (s.remaining_validators - 1)
        s.power_per_validator,
    share-bounded (s.remaining_power - s.power_per_validator) (s.remaining_validators - 1)
        s.power_per_validator max_total,
  )

  below-le-length : (ps : List ℕ) → below max_power ps ≤ length ps
  below-le-length [] = omega arith
  below-le-length (p ∷ ps) = ground (arith, below-le-length ps)

  pub spread-eq-fill :
      (s : Spread) (vs : List ConsensusValidator)
      → Runs s vs
      → IsBounded vs
      → powers_of (spread max_power s vs)
        ≡ fill max_power s.remaining_power s.remaining_validators s.power_per_validator
            (powers_of vs)
  unfolding spread
  spread-eq-fill s [] i b =
      sym (fill-nil max_power s.remaining_power s.remaining_validators s.power_per_validator)
  spread-eq-fill s (v ∷ vs) i b =
      let few : s.remaining_validators ≤ max_total = omega (
        arith,
        below-le-length (powers_of (v ∷ vs)),
        length-map power_of (v ∷ vs),
        i.counted,
        b.count_le,
      ) in
      let ih =
        spread-eq-fill (after s v.power) vs (after-Runs s v vs i)
          (record { total_le = omega arith; count_le = omega arith }) in
      rw (after-eq s v vs i (omega arith) few, give-eq s v i.share_le (omega arith), ih)
        (ground (
          arith,
          fill-cons max_power s.remaining_power s.remaining_validators s.power_per_validator v.power
              (powers_of vs),
        ))

  -- The second loop starts with what is above the cap and the number of validators below it.
  pub start_spread-eq :
      (vs : List ConsensusValidator)
      → IsBounded vs
      → start_spread max_power vs
        ≡ amounts (above max_power (powers_of vs)) (below max_power (powers_of vs)) 0
  unfolding start_spread
  start_spread-eq vs b =
      rw
        (
          excess-eq 0 vs (omega (arith, b.total_le)) ∙ zero-add _,
          count_below-eq 0 vs b.total_le (omega (arith, b.count_le)) ∙ zero-add _,
        )
        (next_share-eq
          (record {
            remaining_power = above max_power (powers_of vs);
            remaining_validators = below max_power (powers_of vs);
            power_per_validator = 0;
          })
          (omega (arith, above-le vs))
          (omega (arith, below-le-length (powers_of vs), length-map power_of vs, b.count_le)))

  pub start-Runs :
      (vs : List ConsensusValidator)
      → IsBounded vs
      → Runs (amounts (above max_power (powers_of vs)) (below max_power (powers_of vs)) 0) vs
  start-Runs vs b =
      let r = above max_power (powers_of vs) in
      let k = below max_power (powers_of vs) in
      ground (arith, above-le vs, b.total_le, share-le r k 0, share-bounded r k 0 max_total)
