-- ===== src/Runtime.antt =====
-- sdk/python/src/shinken/runtime: the record of a rollout, and the loop that produces it.
pub mod Trajectory
pub mod Rollout
