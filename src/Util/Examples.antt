-- ===== src/Util/Examples.antt =====
-- A short text of three bytes.
