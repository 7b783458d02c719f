-- ===== src/State/Tests.antt =====
-- Concrete instances for the summaries.
