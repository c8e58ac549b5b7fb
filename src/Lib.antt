-- ===== src/Lib.antt =====
-- Interchain security: the cross-chain validation protocol (CCV), by which the validators of a provider
-- chain also secure consumer chains. This library models the provider's core logic and shows what
-- makes it correct: which validators validate a consumer chain, with which power and which key, and that
-- a validator can still be found by any consumer key it used while it may be punished for it. It also models
-- the consumer chain's side: how it applies the updates, and how it sends and retries slash packets.
--
-- The parts of the program and where they are modelled. Paths are from the repository's root;
-- keeper/ is x/ccv/provider/keeper/.
-- - keeper/key_assignment.go: Provider/KeyAssignment.antt. The state of one consumer chain is the
--   record Keys, with one map for each of the three store prefixes; AssignConsumerKey,
--   PruneKeyAssignments, DeleteKeyAssignments and GetProviderAddrFromConsumerAddr are
--   assign_consumer_key, prune_key_assignments, delete_key_assignments and
--   get_provider_addr_from_consumer_addr, and AfterValidatorRemoved of keeper/hooks.go is
--   after_validator_removed. Its children hold the invariant of the three maps
--   (Invariant), that the operations keep it (Preserved), what pruning does (Pruning), and what holds
--   after any history of operations (History, Slashable).
-- - keeper/validator_set_storage.go and DiffValidators: Provider/ValidatorSet.antt, with the
--   stored sets in Storage and the diff in Diff. Updates.antt says what applying updates means.
-- - keeper/power_shaping.go: Provider/PowerShaping/. PowerCap is NoMoreThanPercentOfTheSum, with the
--   loop over exact numbers in Exact, the agreement of the two in Agreement and the results in Result;
--   TopN is ComputeMinPowerInTopN and CapValidatorSet; AddressLists and Eligibility are the allowlist,
--   denylist and prioritylist, the power-shaping parameters and the tests on a validator.
-- - keeper/partial_set_security.go: Provider/OptIn.antt.
-- - keeper/validator_set_update.go: Provider/NextValidators.antt. At the end of an epoch
--   ComputeConsumerNextValSet opts the top validators in (OptIn), filters the bonded ones (Eligibility),
--   orders and caps them (PowerShaping), stores the set (ValidatorSet) and returns the difference that
--   is sent to the consumer chain.
-- - the time queues of keeper/consumer_lifecycle.go: Provider/TimeQueue.antt. The rest of that file is
--   Provider/Lifecycle/: Launch is InitializeConsumer, LaunchConsumer and BeginBlockLaunchConsumers,
--   whose cached contexts are Provider/Cached.antt, and Removal is StopAndPrepareForConsumerRemoval,
--   DeleteConsumerChain and BeginBlockRemoveConsumers. Removal/Turns, Links and Loop follow the loop over the
--   chains, Removed joins them.
-- - keeper/infraction_parameters.go: Provider/Infraction.antt. Unscheduled and Scheduled are the invariant
--   of the queue of changes, Turns and Applied what a block applies.
-- - keeper/keeper.go and the accessors of permissionless.go: Provider/Consumers.antt, the record Provider of all
--   that the module keeps, with one record Consumer for each consumer id.
-- - keeper/consumer_equivocation.go: Provider/Equivocation.antt, the evidence of double voting and the
--   punishment for it: Calls is what it calls of the slashing module, Proven what the evidence proves.
-- - VerifyConsumerChain and SetConsumerChain of keeper/keeper.go: Provider/Handshake.antt. Its child Paired is the
--   mapping of chains to channels, from which each chain's packets get to that chain only, and what a
--   channel's connection and client must be.
-- - keeper/relay.go: Provider/Relay.antt for the validator set changes (EndBlockVSU, QueueVSCPackets,
--   SendVSCPackets) and Provider/SlashPackets.antt for the slash packets (OnRecvSlashPacket). An epoch
--   computes the next set of each launched chain (NextValidators), queues the difference as a packet
--   (Relay/Queued), and sends what is pending (Relay/Sending, Relay/Delivered); Told says what a
--   chain was told so far, and Epoch takes the end of a block through all of it. NextValidators/Distinct and
--   Stored, and ValidatorSet/Counts, are what this needs of the sets.
-- - keeper/throttle.go: Provider/SlashMeter.antt, with the drawing from the meter in OnRecvSlashPacket of
--   keeper/relay.go.
-- - keeper/permissionless.go: the phases of a consumer chain and the tests on them, in Provider/Phase.antt.
-- - x/ccv/consumer/keeper/throttle_retry.go, relay.go and the pending packets of keeper.go:
--   Consumer/Packets.antt. Queue says what is sent in which order, Standby and Replies keep the
--   invariant of the retries, History puts them together.
-- - x/ccv/types/utils.go and x/ccv/consumer/keeper/validators.go: Consumer/Changes.antt.
--   AccumulateChanges and ApplyCCValidatorChanges merge the updates of the packets and apply them to
--   the consumer's validators. Accumulate is about the first, Step, Keys and Apply about the second, and Carried takes the
--   provider's differences through both.
-- - OnRecvVSCPacket of x/ccv/consumer/keeper/relay.go, the beginning and the end of a block in
--   x/ccv/consumer/module.go and changeover.go: Consumer/Blocks.antt. Received takes the packets of a block
--   through to its end, InStep joins this to the provider's pending packets (Relay/Told), and
--   Changeover is the block in which a standalone chain becomes a consumer chain.
-- Provider/Chain.antt is the record of what the provider keeps of one consumer chain for all of these.
-- Common/ has the shared names: Go's results and state-passing handlers (Outcome, ReadOnly), fixed-width
-- integers (Words), lists and tests. Store.antt is the key-value store, Sorting.antt is sort.Slice.
-- Examples/ runs the definitions and instantiates the theorems.
--
-- How the code is represented. Addresses, public keys, consumer ids and the strings of the allowlist and
-- its like are numbers that stand for their bytes in the store's order; times are in nanoseconds. The store
-- is an association list in ascending order of keys, one for each prefix, and holds values rather than
-- their encodings, so that the errors of the generated Marshal and Unmarshal do not occur. A handler
-- returns a value, an error or a panic together with the state that it reached: what is written before an
-- error stays, as in the source, where the caller of the message decides to drop it. Powers are
-- natural numbers; NoMoreThanPercentOfTheSum computes on 64-bit patterns with the wrap-around
-- written out, and its theorems hold for a total power of at most 2 ^ 60 - 1, within CometBFT's bound of
-- (2 ^ 63 - 1) / 8. Token amounts and the sums of math.Int do not overflow. All loops are structural
-- recursion, so no fuel is needed.
--
-- What is not in the repository is a parameter: the staking module's answers and the address codecs
-- (Provider/Staking.antt), the fixed-point decimals of the SDK with the rounding that is used of them
-- (Provider/Decimals.antt), and sort.Slice, which may return any rearrangement that is in
-- order. For the last two there are instances that meet the hypotheses.
--
-- Of IBC, the model has what SendPacket and the client, connection and channel keepers answer within a block
-- (Provider/Ibc.antt), and of the slashing module how its calls leave; the calls that were made are listed in the
-- state.
--
-- Not modelled: the historical info of the consumer chain, messages, queries, genesis, migrations, reward distribution, light client
-- attacks, the IBC callbacks and the applications.
pub mod Common
pub mod Store
pub mod Sorting
pub mod Updates
pub mod Provider
pub mod Consumer
mod Examples
