-- ===== src/Lib.antt =====
-- Shinken's Python SDK, sdk/python/src/shinken: a session drives a sandboxed desktop, asks a
-- capability gate before each verb, sends single actions or batches, dedups its screenshots over a
-- cache of frames, and compares accessibility trees; under it a demultiplexer hands the messages of
-- the connection to the calls that wait for them. The runtime loop drives an agent against a session
-- and records the rollout; the gym offers a policy episodes over replicas of a sandbox.
--
-- Parts and files:
-- - Errors: errors.py. An exception is its class and its text; classify_exception gives a batch row
--   its status.
-- - Gateway: gateway.py. The capability that a verb needs and the decision against an envelope. The
--   session's gate is its client.
-- - Session/Gate: AsyncSandbox._gate, gate_capability and _record_decision of client.py, with the
--   envelope that the constructor merges. The state is the envelope, the switch, the approval
--   handler and the log of decisions.
-- - Session/Batch: AsyncSandbox.act_batch of client.py, over any `act` and any state.
-- - Session/Demux: AsyncSandbox._dispatch, _fail_pending and _discard_pong_waiter of client.py, and what
--   _rpc, act, ping and exec_stream register. A future and an event queue are numbers; the steps of
--   callers, deadlines and the reader interleave as a list.
-- - Session/Frames: the frame queues of one event loop, with the byte budget that their sandboxes
--   share: _push_frame, _drop_oldest_frame, _account_popped, _clear_frames and _evict_over_budget.
-- - Session/Wire: _parse_binary_frame of client.py, against the builders of binary frames in
--   shinkend/src/protocol.rs. A byte is a number; the JSON library is a parameter on both sides.
-- - Session/Shots: AsyncSandbox.screenshot with its deduplication, a client of FrameCache. Pixels, their
--   hash and their encoding are parameters; the runtime is what it answers to the offered hash.
-- - Session/Targets: map_target_from_observation and _target of client.py, against the sampling of
--   downscale_rgb in shinkend/src/executor.rs. Session/Floats: a float is the rational that it stands
--   for, and every conversion and operation on it is rounded by a parameter, which may raise.
-- - FrameCache: the class FrameCache of client.py. The two dictionaries are association lists in
--   insertion order, the oldest entry first, so `move_to_end` and `popitem(last=False)` are those of
--   OrderedDict. Each method holds the lock, so it is one step, and sessions interleave as a list of
--   steps.
-- - A11y/Node, A11y/Observe, A11y/Diff: a11y.py. The tree, its flattening, its coverage counts and
--   the structured observation of a source that may fail; identity keys and the diff of two captures.
-- - Runtime/Trajectory, Runtime/Rollout: runtime/trajectory.py and runtime/loop.py. Exit reasons and
--   their precedence; the loop over an agent, with the session, the agent and the hooks as calls
--   that may raise and change one state.
-- - Eval/Receipt, Eval/Replica, Eval/Forked: eval.py. A verifier's return as a value of any type and its
--   validation into a receipt; a run's result, run_eval's loop over fresh sessions and the
--   summary; run_eval_forked over a provider's checkpoint.
-- - Gym/Reward: _reward_from of gym.py, over the receipts of Eval/Receipt.
-- - Gym/Make, Gym/Env, Gym/Steps: ShinkenGymEnv of gym.py, and connect_owned_handle of _lifecycle.py. The
--   provider, the session, the task and the dialect are a record of calls that may raise and change one
--   state; make changes the part of the environment that Base holds, and the exception of an
--   operation leaves the environment as the code leaves it.
-- - Routed, Routed/Dispatch: backends/routed.py. RoutedSession, its routing and its batches, over any
--   dispatch; the backend's method that dispatch_action selects.
-- - Prelude: Python's dictionaries, equality, conditional and exceptions as values, and lists of
--   distinct keys.
--
-- Loops are structural recursion on the list that they walk, and the rollout's on the rounds that
-- `range(max_steps)` leaves (run_eval's on the runs that `range(n)` leaves), so no fuel is needed.
--
-- Parameters: Python's `str.lower`, `str.strip` and `str`, the approval handler and the clock, the
-- fresh id of a batch, `int` on a coordinate and `float` on an integer, the rounding of floats with the
-- bounds of IEEE 754 as named hypotheses, the frames of the cache, the call that sends an action, and the agent.
-- Numbers are natural where the source counts and integers where it measures boxes.
--
-- The provider of a forked evaluation and the dispatch on a routed surface are parameters too.
--
-- Not modelled: the socket, act, step and the frames that close keeps, of client.py; the
-- pool and the dataloader of gym.py; the dialect, artifacts and egress; providers, adapters, the
-- other backends and integrations, which bind other programs; serialization, clocks and rounded
-- percentages.
pub mod Prelude
pub mod FrameCache
pub mod Errors
pub mod Gateway
pub mod Session
pub mod A11y
pub mod Runtime
pub mod Eval
pub mod Routed
pub mod Gym
