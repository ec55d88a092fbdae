-- ===== src/Entity.antt =====
-- The package entity/: the kinds of entities and their identifiers, and the content state of an entity
-- that is synchronised.
pub mod Ids
pub mod Kinds
pub mod Profiles
pub mod SubjectSync
