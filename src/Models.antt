-- ===== src/Models.antt =====
-- vsm/kernel/models.py: the entities that the Kernel keeps. Identifiers and non-blank texts are
-- texts, a `datetime` is a number of time units, and `frozenset` and `tuple` fields are lists.
pub mod Node
pub mod Work
pub mod Execution
pub mod Effect
pub mod Grant
pub mod Route
pub mod Event
pub mod Naming
pub mod Activation
pub mod Auth
pub mod Payload
