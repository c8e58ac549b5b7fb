-- ===== src/Examples/Slashes.antt =====
-- Slash packets of the launched chain on channel 4, whose stored set has the validators 35 and 60.
use interchain_security.Common.{ℕ, ◌≡◌, refl, true, false, [], ◌∷◌, none, some}
use interchain_security.Common.Int.{◌-ℤ◌}
use interchain_security.Common.Outcome.{ok}
use interchain_security.Provider.SlashMeter.{draw_from_meter, set_slash_meter}
use interchain_security.Provider.Infraction.{SlashJail}
use interchain_security.Provider.Consumers.{
  Provider, slash, jail, jail_until, get_channel_id_to_consumer_id,
}
use interchain_security.Consumer.Packets.{Infraction}
use interchain_security.Provider.SlashPackets.{
  SlashPacketData, Slashing, handled, bounced, on_recv_slash_packet,
}
use interchain_security.Provider.SlashPackets.Punished.{Received, on_recv_slash_packet-Received}
use interchain_security.Examples.Powers.{staking}
use interchain_security.Examples.Selection.{block, after_epoch}
use interchain_security.Examples.Chains.{with_chain, provider}

abbrev pub slashing : Slashing
slashing = record {
  is_address = λ a. true;
  slash_result = λ a. true;
  jail_result = λ a. true;
  jail_until_result = λ a. true;
}

abbrev downtime_of : ℕ → SlashPacketData
downtime_of a = record {
  address = a;
  power = 60;
  valset_update_id = 3;
  infraction = Infraction.downtime;
}

abbrev downtime_parameters : SlashJail
downtime_parameters = record { slash_fraction = 5; jail_duration = 600; tombstone = false }

abbrev before : Provider
before = record (provider (record (with_chain after_epoch) { channel = some 4 })) {
  valset_update_heights = (3, 42) ∷ [];
  infractions = record {
    parameters = (0, record { double_sign = none; downtime = some downtime_parameters }) ∷ [];
    queued = [];
    schedule = [];
  };
}

abbrev once_slashed : Provider
once_slashed = (on_recv_slash_packet staking slashing block 4 (downtime_of 60) before).1

-- The meter of 3 pays for the power of 60 and is negative then.
slashed :
    on_recv_slash_packet staking slashing block 4 (downtime_of 60) before
    ≡ (ok handled, once_slashed)
unfolding on_recv_slash_packet draw_from_meter set_slash_meter ◌-ℤ◌
slashed = refl

calls : once_slashed.punished ≡ slash 60 42 60 5 ∷ jail 60 ∷ jail_until 60 700 ∷ []
unfolding on_recv_slash_packet draw_from_meter set_slash_meter ◌-ℤ◌
calls = refl

bounced_then :
    on_recv_slash_packet staking slashing block 4 (downtime_of 35) once_slashed
    ≡ (ok bounced, once_slashed)
unfolding on_recv_slash_packet draw_from_meter set_slash_meter ◌-ℤ◌
bounced_then = refl

on_recv_slash_packet-Received_example :
    (id : ℕ) × ((get_channel_id_to_consumer_id 4 before ≡ some id)
      × Received staking slashing block id (downtime_of 60) before once_slashed handled)
on_recv_slash_packet-Received_example =
    on_recv_slash_packet-Received staking slashing block 4 (downtime_of 60) before once_slashed
      handled slashed
