-- ===== src/Examples.antt =====
-- Tests of the model by evaluation, and the theorems at concrete inputs.
mod Sets
mod Powers
mod Assignments
mod Queues
mod Selection
mod Meter
mod Retries
mod Changes
mod Chains
mod Epochs
mod Slashes
mod Lifecycles
mod Infractions
mod Blocks
mod Handshakes
mod DoubleVotes
