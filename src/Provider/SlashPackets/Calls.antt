-- ===== src/Provider/SlashPackets/Calls.antt =====
-- The calls of the slashing module for a slash packet.
use mathlib.Core.List.{append-nil, append_assoc}
use interchain_security.Common.{
  ℕ, ◌+◌, ◌≡◌, refl, sym, ◌∙◌, Bool, true, false, not, List, [], ◌∷◌, ◌++◌, Option, none, some,
  if◌then◌else◌, inl, inr, Option-cases, All,
}
use interchain_security.Provider.Staking.{Block}
use interchain_security.Provider.Infraction.{SlashJail, InfractionParameters}
use interchain_security.Provider.Consumers.{
  Punishment, slash, jail, jail_until, tombstone, Provider,
}
use interchain_security.Provider.SlashPackets.{Slashing, log_punished, punish, punish_downtime}

abbrev pub target : Punishment → ℕ
target (slash addr height power fraction) = addr
target (jail addr) = addr
target (jail_until addr time) = addr
target (tombstone addr) = addr

-- The calls that a step adds are all against one validator, and the meter stays.
abbrev pub Adds : ℕ → Provider → Provider → Type 0
Adds addr s s' =
    (s'.throttle ≡ s.throttle)
    × ((ps : List Punishment) × ((s'.punished ≡ s.punished ++ ps) × All (λ p. target p ≡ addr) ps))

pub Adds-none :
    (addr : ℕ) (s s' : Provider)
    → s'.throttle ≡ s.throttle
    → s'.punished ≡ s.punished
    → Adds addr s s'
Adds-none addr s s' t e = (t, ([], (e ∙ sym (append-nil s.punished), tt)))

module _ (sl : Slashing) (b : Block) (addr height power : ℕ) where
  punish-Adds : (p : SlashJail) (s : Provider) → Adds addr s (punish sl b addr height power p s)
  unfolding punish
  punish-Adds p s = go (sl.slash_result addr) (sl.jail_result addr) (sl.jail_until_result addr)
    where
      p1 : Punishment
      p1 = slash addr height power p.slash_fraction

      p2 : Punishment
      p2 = jail addr

      p3 : Punishment
      p3 = jail_until addr (b.time + p.jail_duration)

      go :
          (x y z : Bool)
          → Adds addr s (
              if not x
              then s
              else (let s1 = log_punished p1 s in
                  if not y
                  then s1
                  else (let s2 = log_punished p2 s1 in if not z then s2 else log_punished p3 s2)))
      go false y z = Adds-none addr s s refl refl
      go true false z = (refl, (p1 ∷ [], (refl, (refl, tt))))
      go true true false =
          (refl, (p1 ∷ p2 ∷ [], (append_assoc s.punished (p1 ∷ []) (p2 ∷ []), (refl, (refl, tt)))))
      go true true true = (
        refl,
        (
          p1 ∷ p2 ∷ p3 ∷ [],
          (
            append_assoc (s.punished ++ p1 ∷ []) (p2 ∷ []) (p3 ∷ [])
                ∙ append_assoc s.punished (p1 ∷ []) (p2 ∷ p3 ∷ []),
            (refl, (refl, (refl, tt))),
          ),
        ),
      )

  pub punish_downtime-Adds :
      (jailed : Bool) (o : Option InfractionParameters) (s : Provider)
      → Adds addr s (punish_downtime sl b jailed addr height power o s).1
  unfolding punish_downtime
  punish_downtime-Adds true none s = Adds-none addr s s refl refl
  punish_downtime-Adds false none s = Adds-none addr s s refl refl
  punish_downtime-Adds true (some p) s = Adds-none addr s s refl refl
  punish_downtime-Adds false (some p) s = elim (Option-cases p.downtime) [
    | inl absent ↦ rw (absent) (Adds-none addr s s refl refl)
    | inr (d, e) ↦ rw (e) (punish-Adds d s)
  ]
