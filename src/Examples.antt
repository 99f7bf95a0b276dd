-- ===== src/Examples.antt =====
-- Concrete runs of the definitions: tests, and instances of the theorems.
mod MappingRuns
mod SequenceRuns
mod LoopRuns
mod AttributeRuns
