-- ===== src/Engine/Run/Suite/Results.antt =====
-- What the run of a test leaves.

