-- ===== src/A11y.antt =====
-- sdk/python/src/shinken/a11y.py: the accessibility tree, its elements, and the diff of two
-- captures.
pub mod Node
pub mod Diff
pub mod Observe
