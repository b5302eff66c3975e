-- ===== src/Examples.antt =====
-- Runs at concrete inputs: every theorem with hypotheses is applied where they hold.
mod Stores
mod Wire
mod Machine
mod Workers
mod Pools
mod Whole
mod Endpoint
