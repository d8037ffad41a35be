-- ===== src/Ata/Tests.antt =====
-- Runs of the transfers of ata.c on small inputs.
