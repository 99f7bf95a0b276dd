-- ===== src/Mapping.antt =====
-- Mapping expressions and mapping attributes (sair_attributes.cc, sair_attributes.h).
pub mod Expr
pub mod Refines
pub mod Unify
pub mod Inverse
pub mod Attr
pub mod Canonical
pub mod Named
pub mod Constraints
