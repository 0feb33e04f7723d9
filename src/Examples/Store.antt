-- ===== src/Examples/Store.antt =====
-- The repair and the collection of a concrete store.
use omnidrive.Prelude.{true, ◌≡◌, All, select_where}
use omnidrive.Db.Targets.Sync.{sync_upload_targets_from_shards, sync_idem}
use omnidrive.Db.Orphans.{gc_orphan_packs, is_referenced}
use omnidrive.Db.Orphans.Safety.{is_live, live_packs_kept, no_orphan_left}
use omnidrive.Examples.{store}

sync_idem_example :
    let db' = (sync_upload_targets_from_shards 100 store).1 in
    sync_upload_targets_from_shards 200 db'
    ≡ (record { synced_targets = 0; cleared_errors = 0 }, db')
sync_idem_example = sync_idem 100 200 store

live_packs_kept_example :
    let db' = (gc_orphan_packs store).1 in
    (select_where (λ p. is_live store p.pack_id) db'.packs
      ≡ select_where (λ p. is_live store p.pack_id) store.packs)
    × (select_where (λ s. is_live store s.pack_id) db'.pack_shards
        ≡ select_where (λ s. is_live store s.pack_id) store.pack_shards)
    × (select_where (λ l. is_live store l.pack_id) db'.pack_locations
        ≡ select_where (λ l. is_live store l.pack_id) store.pack_locations)
    × (db'.chunk_refs ≡ store.chunk_refs)
live_packs_kept_example = live_packs_kept store

no_orphan_left_example :
    let db' = (gc_orphan_packs store).1 in All (λ p. is_referenced db' p ≡ true) db'.packs
no_orphan_left_example = no_orphan_left store
