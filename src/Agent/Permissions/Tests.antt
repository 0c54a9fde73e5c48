-- ===== src/Agent/Permissions/Tests.antt =====
-- The theorem on permission profiles at a concrete input.
