-- ===== src/Gym.antt =====
-- sdk/python/src/shinken/gym.py: the environment, ShinkenGymEnv.
pub mod Reward
pub mod Make
pub mod Env
pub mod Steps
pub mod Episodes
pub mod Resets
pub mod Verdicts
pub mod Turns
pub mod Replicas
pub mod Holdings
pub mod Turning
pub mod Returns
pub mod Laws
mod Tests
