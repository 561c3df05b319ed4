-- ===== src/Examples.antt =====
-- Runs of the theorems at concrete inputs.
mod Setting
mod Recalls
mod Captures
mod Boots
mod Adapters
mod Failures
mod Rules
mod Daemons
mod Tools
mod Deletes
mod Wires
mod Starts
