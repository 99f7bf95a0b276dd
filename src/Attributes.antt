-- ===== src/Attributes.antt =====
-- The attributes that are dictionaries: `LoopAttr`, `BufferAttr` and `DecisionsAttr`
-- (sair_attributes.cc). The dictionaries and the attributes in them are the framework's.
pub mod Interface
pub mod Loop
pub mod Buffer
pub mod Decisions
