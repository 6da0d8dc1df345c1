-- ===== src/Eval.antt =====
-- sdk/python/src/shinken/eval.py: verifier receipts, and the runs that are scored with them.
pub mod Receipt
pub mod Replica
pub mod Forked
