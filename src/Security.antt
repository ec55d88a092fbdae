-- ===== src/Security.antt =====
-- The parts of security/ that are modelled.
pub mod RateLimit
