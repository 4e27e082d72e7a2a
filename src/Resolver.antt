-- ===== src/Resolver.antt =====
-- internal/resolver: the resolvents of a payload, on decoded JSON.
pub mod Json
pub mod Path
pub mod Chain
pub mod Find
pub mod Fill
