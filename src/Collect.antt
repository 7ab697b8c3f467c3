-- ===== src/Collect.antt =====
-- internal/collect: the parts of the one-shot collector that are modelled.
pub mod Times
