-- ===== src/Provider/PowerShaping/TopN/Minimum.antt =====
-- What the minimum power in the top N is: it is always found, the validators with at least that
-- power hold the required share, and those with more do not.
use native.Mathlib.Nat.{add-zero}
use interchain_security.Common.{
  ℕ, ◌+◌, ◌≤◌, ◌<◌, ◌≡◌, ◌≢◌, refl, ap, true, false, List, [], ◌∷◌, some, arith, ltb, leb, ◌==◌,
  if◌then◌else◌, All, inl, inr, Bool-cases, ◌||◌, ◌∙◌, subst,
}
use interchain_security.Common.Outcome.{ok, then_ok}
use interchain_security.Sorting.{SortSlice, Ordered}
use interchain_security.Sorting.Perms.{sum_by, sum_by-perm}
use interchain_security.Provider.Decimals.{LegacyDec, RoundsQuotient}
use interchain_security.Provider.Staking.{Staking, StakingValidator}
use interchain_security.Provider.PowerShaping.TopN.{
  collect_powers, sum_powers, find_min_power, powers_greater, compute_min_power_in_top_n,
}

-- The power of those with at least `m`, and of those with more.
abbrev pub at_least : ℕ → List ℕ → ℕ
at_least m = sum_by λ p. if leb m p then p else 0

abbrev pub more_than : ℕ → List ℕ → ℕ
more_than m = sum_by λ p. if ltb m p then p else 0

sum_powers-eq : (ps : List ℕ) → sum_powers ps ≡ sum_by (λ p. p) ps
unfolding sum_powers
sum_powers-eq [] = refl
sum_powers-eq (p ∷ ps) = omega (arith, sum_powers-eq ps)

none_more : (m : ℕ) (ps : List ℕ) → All (λ q. powers_greater q m ≡ false) ps → more_than m ps ≡ 0
none_more m [] h = refl
none_more m (p ∷ ps) h = ground (arith, none_more m ps h.1)

in_range : (n : ℕ) → 0 < n → n ≤ 100 → (n == 0 || ltb 100 n) ≡ false
in_range n lo hi = ground arith

head_none : (p : ℕ) → (if ltb p p then p else 0) ≡ 0
head_none p = ground arith

find_min_power-le :
    (d : LegacyDec) (top_n total b m sum : ℕ) (ps : List ℕ)
    → All (λ q. powers_greater q b ≡ false) ps
    → find_min_power d top_n total sum ps ≡ ok m
    → m ≤ b
unfolding find_min_power
find_min_power-le d top_n total b m sum [] h e = cc
find_min_power-le d top_n total b m sum (p ∷ ps) h e =
    ground (arith, find_min_power-le d top_n total b m (sum + p) ps h.1)

module _ (d : LegacyDec) (r : RoundsQuotient d) (top_n total : ℕ) (positive : 0 < total) where
  -- What the scan finds: the first power with which the share is reached.
  abbrev Found : ℕ → List ℕ → ℕ → Type 0
  Found sum ps m =
      (find_min_power d top_n total sum ps ≡ ok m)
      × (d.share_reaches (sum + at_least m ps) total top_n ≡ some true)
      × (d.share_reaches (sum + more_than m ps) total top_n ≢ some true)

  Found-here :
      (sum p : ℕ) (ps : List ℕ)
      → Ordered powers_greater (p ∷ ps)
      → d.share_reaches sum total top_n ≢ some true
      → d.share_reaches (sum + p) total top_n ≡ some true
      → Found sum (p ∷ ps) p
  unfolding find_min_power
  Found-here sum p ps o short e = (
    rw (e, find_min_power),
    r.monotone (sum + p) (sum + at_least p (p ∷ ps)) total top_n (ground arith) e,
    subst (λ s. d.share_reaches s total top_n ≢ some true)
        (omega (arith, head_none p, none_more p ps o.0)) short,
  )

  Found-later :
      (sum p m : ℕ) (ps : List ℕ)
      → Ordered powers_greater (p ∷ ps)
      → d.share_reaches sum total top_n ≢ some true
      → d.share_reaches (sum + p) total top_n ≡ some false
      → Found (sum + p) ps m
      → Found sum (p ∷ ps) m
  unfolding find_min_power
  Found-later sum p m ps o short e (found, enough, not_enough) =
      let le : m ≤ p = find_min_power-le d top_n total p m (sum + p) ps o.0 found in
      (
        rw (e, find_min_power) found,
        r.monotone _ (sum + at_least m (p ∷ ps)) total top_n (ground arith) enough,
        elim (Bool-cases (ltb m p)) [
          | inl less ↦
              subst (λ s. d.share_reaches s total top_n ≢ some true) (ground arith) not_enough
          | inr same ↦
              let eq : m ≡ p = ground arith in
              subst (λ s. d.share_reaches s total top_n ≢ some true)
                (ground (arith, none_more p ps o.0)) short
        ],
      )

  -- The scan at a sum whose share falls short, over powers in descending order, finds one if the
  -- share is reached with all of them.
  find_min_power-Found :
      (sum : ℕ) (ps : List ℕ)
      → Ordered powers_greater ps
      → d.share_reaches sum total top_n ≢ some true
      → d.share_reaches (sum + sum_by (λ p. p) ps) total top_n ≡ some true
      → (m : ℕ) × Found sum ps m
  find_min_power-Found sum [] o short reached =
      absurd (short (subst (λ s. d.share_reaches s total top_n ≡ some true) (add-zero sum) reached))
  find_min_power-Found sum (p ∷ ps) o short reached =
      let (b, e) = r.defined (sum + p) total top_n positive in
      elim (Bool-cases b) [
        | inl yes_it_is ↦ (p, Found-here sum p ps o short (e ∙ ap some yes_it_is))
        | inr falls_short ↦
            let (m, found) =
              find_min_power-Found (sum + p) ps o.1 (λ q. cc)
                (subst (λ s. d.share_reaches s total top_n ≡ some true) (omega arith) reached) in
            (m, Found-later sum p m ps o short (e ∙ ap some falls_short) found)
      ]

module _ (d : LegacyDec) (r : RoundsQuotient d) (by : SortSlice powers_greater) (k : Staking)
    (bonded : List StakingValidator) (ps : List ℕ) (top_n : ℕ)
    (collected : collect_powers k bonded ≡ ok ps) (lo : 0 < top_n) (hi : top_n ≤ 100)
    (positive : 0 < sum_by (λ p. p) ps) where
  -- For a percentage in (0, 100] and bonded validators that hold some power, the minimum power is
  -- found ("should never reach this point" is not reached, and nothing panics): the validators with
  -- at least that power reach the share of the total, and those with more than it do not.
  pub compute_min_power_in_top_n-Found :
      let total = sum_by (λ p. p) ps in
      (m : ℕ) × (compute_min_power_in_top_n d by k bonded top_n ≡ ok m)
      × (d.share_reaches (at_least m ps) total top_n ≡ some true)
      × (d.share_reaches (more_than m ps) total top_n ≢ some true)
  unfolding compute_min_power_in_top_n
  compute_min_power_in_top_n-Found =
      let total = sum_by (λ p. p) ps in
      let sorted = by.sort ps in
      let same = by.sort_perm ps in
      let (m, f) =
        find_min_power-Found d r top_n total positive 0 sorted (by.sort_ordered ps)
          (λ q. cc (r.nothing total top_n positive lo))
          (subst (λ s. d.share_reaches s total top_n ≡ some true)
            (omega (arith, sum_by-perm (λ p. p) same)) (r.whole total top_n positive hi)) in
      (
        m,
        rw (in_range top_n lo hi, collected, then_ok, sum_powers-eq ps) f.0,
        subst (λ s. d.share_reaches s total top_n ≡ some true)
            (omega (arith, sum_by-perm (λ p. if leb m p then p else 0) same)) f.1,
        subst (λ s. d.share_reaches s total top_n ≢ some true)
            (omega (arith, sum_by-perm (λ p. if ltb m p then p else 0) same)) f.2,
      )
