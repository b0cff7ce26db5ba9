-- ===== src/Responses/Tests.antt =====
-- A conflict.
