-- ===== src/Boot/Loaded.antt =====
-- What the first process finds at its first address.
