-- ===== src/Provider/SlashPackets.antt =====
-- How the provider receives slash packets: the CIS part of x/ccv/provider/keeper/relay.go, with
-- SlashPacketData.Validate of x/ccv/types/wire.go.
pub mod Calls
pub mod Punished
use interchain_security.Common.{
  ℕ, ◌+◌, Bool, true, false, not, List, [], ◌∷◌, ◌++◌, Option, none, some, ◌==◌, if◌then◌else◌,
  is_some,
}
use interchain_security.Common.Outcome.{
  Outcome, ok, err, panic, Handler, ◌>>=◌, ◌>>◌, pure, gets, modify, panics, reject_if, is_ok,
  invalid_packet, unknown_infraction_height,
}
use interchain_security.Store
use interchain_security.Provider.Phase.{is_launched}
use interchain_security.Provider.Staking.{Staking, StakingValidator, Block}
use interchain_security.Provider.KeyAssignment.{get_provider_addr_from_consumer_addr}
use interchain_security.Provider.ValidatorSet.{is_validator}
use interchain_security.Provider.SlashMeter.{draw_from_meter, get_effective_val_power}
use interchain_security.Provider.Infraction.{
  SlashJail, InfractionParameters, get_infraction_parameters,
}
use interchain_security.Provider.Consumers.{
  Punishment, slash, jail, jail_until, Provider, on_throttle, get_consumer_phase,
  get_channel_id_to_consumer_id, append_slash_ack, set_slash_log,
}
use interchain_security.Consumer.Packets.{Infraction}

-- ccv.SlashPacketData
pub record SlashPacketData : Type 0 where
  pub address : ℕ
  pub power : ℕ
  pub valset_update_id : ℕ
  pub infraction : Infraction

-- What relay.go asks of the staking and slashing modules: `sdk.VerifyAddressFormat`, and how
-- `SlashWithInfractionReason`, `Jail` and `JailUntil` leave.
pub record Slashing : Type 0 where
  pub is_address : ℕ → Bool
  pub slash_result : ℕ → Bool
  pub jail_result : ℕ → Bool
  pub jail_until_result : ℕ → Bool

-- The result acknowledgements: V1Result, SlashPacketHandledResult and SlashPacketBouncedResult.
pub data AckResult : Type 0 where
  v1 handled bounced : AckResult

abbrev is_known : Infraction → Bool
is_known Infraction.unspecified = false
is_known Infraction.double_sign = true
is_known Infraction.downtime = true

-- `SlashPacketData.Validate`
unfoldable pub is_valid_data : Slashing → SlashPacketData → Bool
is_valid_data sl d =
    if not (sl.is_address d.address)
    then false
    else if d.power == 0
    then false
    else is_known d.infraction

unfoldable pub get_mapped_infraction_height : ℕ → ℕ → Provider → Option ℕ
get_mapped_infraction_height id valset_update_id s =
    if valset_update_id == 0
    then (s.consumers id).init_chain_height
    else Store.get valset_update_id s.valset_update_heights

abbrev pub provider_address : ℕ → SlashPacketData → Provider → ℕ
provider_address id d s = get_provider_addr_from_consumer_addr d.address (s.consumers id).chain.keys

abbrev pub log_punished : Punishment → Provider → Provider
log_punished p s = record s { punished = s.punished ++ p ∷ [] }

-- Slashing and jailing a validator: every failure ends the handling.
unfoldable pub punish : Slashing → Block → ℕ → ℕ → ℕ → SlashJail → Provider → Provider
punish sl b addr infraction_height power p s =
    if not (sl.slash_result addr)
    then s
    else (let s1 = log_punished (slash addr infraction_height power p.slash_fraction) s in
        if not (sl.jail_result addr)
        then s1
        else (let s2 = log_punished (jail addr) s1 in
            if not (sl.jail_until_result addr)
            then s2
            else log_punished (jail_until addr (b.time + p.jail_duration)) s2))

-- The end of `HandleSlashPacket`: the infraction's parameters, and whether the validator is jailed already.
unfoldable pub punish_downtime :
    Slashing → Block → Bool → ℕ → ℕ → ℕ → Option InfractionParameters → Handler Provider (Unit {0})
unfolding punish
punish_downtime sl b is_jailed addr height power none = pure tt
punish_downtime sl b true addr height power (some p) = pure tt
punish_downtime sl b false addr height power (some p) = elim p.downtime [
  | none ↦ panics
  | some downtime ↦ modify (punish sl b addr height power downtime)
]

-- `HandleSlashPacket` for a validator that the staking module knows.
unfoldable pub handle_for :
    Staking
    → Slashing
    → Block
    → ℕ
    → SlashPacketData
    → ℕ
    → StakingValidator
    → Handler Provider (Unit {0})
unfolding punish_downtime get_mapped_infraction_height
handle_for k sl b id d addr v s =
    if v.is_unbonded
    then (ok tt, s)
    else if k.is_tombstoned addr
    then (ok tt, s)
    else elim (get_mapped_infraction_height id d.valset_update_id s) [
      | none ↦ (ok tt, s)
      | some height ↦
          let s' = append_slash_ack id d.address s in
          punish_downtime sl b v.is_jailed addr height d.power
            (get_infraction_parameters id s'.infractions) s'
    ]

-- `HandleSlashPacket`
unfoldable pub handle_slash_packet :
    Staking → Slashing → Block → ℕ → SlashPacketData → Handler Provider (Unit {0})
unfolding handle_for
handle_slash_packet k sl b id d s =
    let addr = provider_address id d s in
    elim (k.get_validator_by_cons_addr addr) [
      | ok v ↦ handle_for k sl b id d addr v s
      | err e ↦ (ok tt, s)
      | panic ↦ (panic, s)
    ]

-- `OnRecvSlashPacket` for a downtime infraction.
unfoldable pub on_recv_downtime :
    Staking → Slashing → Block → ℕ → SlashPacketData → Handler Provider AckResult
unfolding handle_slash_packet draw_from_meter
on_recv_downtime k sl b id d s =
    let addr = provider_address id d s in
    if not (is_launched (get_consumer_phase id s))
    then (ok handled, append_slash_ack id d.address s)
    else if not (is_validator addr (s.consumers id).chain.val_set)
    then (ok handled, append_slash_ack id d.address s)
    else (do
      drawn ← on_throttle (draw_from_meter (get_effective_val_power k addr))
      if drawn then (do handle_slash_packet k sl b id d; pure handled) else pure bounced)
        s

abbrev pub is_double_sign : Infraction → Bool
is_double_sign Infraction.double_sign = true
is_double_sign _ = false

unfoldable pub on_recv_slash_packet :
    Staking → Slashing → Block → ℕ → SlashPacketData → Handler Provider AckResult
unfolding is_valid_data get_mapped_infraction_height on_recv_downtime
on_recv_slash_packet k sl b channel d s = elim (get_channel_id_to_consumer_id channel s) [
  | none ↦ (panic, s)
  | some id ↦
      (do
        reject_if (not (is_valid_data sl d)) invalid_packet
        height ← gets (get_mapped_infraction_height id d.valset_update_id)
        reject_if (not (is_some height)) unknown_infraction_height
        if is_double_sign d.infraction
            then (do modify (set_slash_log (provider_address id d s)); pure v1)
            else on_recv_downtime k sl b id d)
        s
]
