-- ===== src/Stats/Ledger/Sync.antt =====
-- A synchronisation that fails leaves what is to be sent as it was: `sync` calls `getChanges`, and
-- `addChanges` where the other database throws.
use voipbill.Map.{Map}
use voipbill.Stats.Ledger.{Ledger}
