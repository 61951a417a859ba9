-- ===== src/Fusion/Retrieval.antt =====
-- The hits of a retrieval.
