-- ===== src/Db/Orphans/Safety.antt =====
-- The orphans go, all of them, and nothing else: `gc_orphan_packs` of angeld/src/db/uploads.rs.
use mathlib.Core.List.{Memᴰ}
use omnidrive.Prelude.{
  ℕ, ◌≡◌, refl, sym, ap, ◌∙◌, String, Bool, true, false, ◌||◌, not, List, [], ◌∷◌, str_eq, eq_iff,
  select_where, delete_where, any_where, map, arith, Bool-cases, inl, inr, All, select_where-All,
  any-delete_other, select-delete_other, delete-delete, All-Memᴰ,
}
use omnidrive.Db.{Db, Pack, PackLocation, UploadJob}
use omnidrive.Db.Shards.{of_pack}
use omnidrive.Db.Packs.{named, located_in, job_of}
use omnidrive.Db.Orphans.{
  GcOrphanReport, no_deletions, holds_live_chunk, is_referenced, orphan_ids, delete_jobs,
  delete_pack, delete_orphan, delete_orphans, gc_orphan_packs,
}

-- The pack with this id holds a chunk that a revision refers to.
abbrev pub is_live : Db → String → Bool
is_live db pack_id = any_where (holds_live_chunk pack_id db.chunk_refs) db.pack_locations

-- A row of a pack of the list.
abbrev is_in {ℓ} : {A : Type ℓ} → (A → String) → List String → A → Bool
is_in key [] r = false
is_in key (id ∷ ids) r = str_eq (key r) id || is_in key ids r

delete_where-nothing {ℓ} : {A : Type ℓ} (rs : List A) → delete_where (λ r. false) rs ≡ rs
unfolding delete_where
delete_where-nothing [] = refl
delete_where-nothing (r ∷ rs) = ap (◌∷◌ r) (delete_where-nothing rs)

-- What the loop over the packs leaves.
record Remains (ids : List String) (db db' : Db) : Type 0 where
  packs : db'.packs ≡ delete_where (is_in (λ p. p.pack_id) ids) db.packs
  shards : db'.pack_shards ≡ delete_where (is_in (λ s. s.pack_id) ids) db.pack_shards
  locations : db'.pack_locations ≡ delete_where (is_in (λ l. l.pack_id) ids) db.pack_locations
  refs : db'.chunk_refs ≡ db.chunk_refs

-- The loop over the jobs of a pack touches the queue alone.
record SamePacks (db db' : Db) : Type 0 where
  packs : db'.packs ≡ db.packs
  shards : db'.pack_shards ≡ db.pack_shards
  locations : db'.pack_locations ≡ db.pack_locations
  refs : db'.chunk_refs ≡ db.chunk_refs

delete_jobs-SamePacks :
    (ids : List ℕ) (s : GcOrphanReport × Db) → SamePacks s.1 (delete_jobs ids s).1
unfolding delete_jobs
delete_jobs-SamePacks [] s = record { packs = refl; shards = refl; locations = refl; refs = refl }
delete_jobs-SamePacks (id ∷ ids) (r, db) =
    let h = delete_jobs-SamePacks ids _ in
    record { packs = h.packs; shards = h.shards; locations = h.locations; refs = h.refs }

delete_orphans-Remains :
    (ids : List String) (s : GcOrphanReport × Db) → Remains ids s.1 (delete_orphans ids s).1
unfolding delete_orphans delete_orphan
delete_orphans-Remains [] s = record {
  packs = sym (delete_where-nothing s.1.packs);
  shards = sym (delete_where-nothing s.1.pack_shards);
  locations = sym (delete_where-nothing s.1.pack_locations);
  refs = refl;
}
delete_orphans-Remains (id ∷ ids) s =
    let jobs = map (λ (j : UploadJob). j.id) (select_where (job_of id) s.1.upload_jobs) in
    let j = delete_jobs-SamePacks jobs s in
    let h = delete_orphans-Remains ids (delete_pack id (delete_jobs jobs s)) in
    record {
      packs =
          h.packs
          ∙ ap (λ rs. delete_where (is_in (λ p. p.pack_id) ids) (delete_where (named id) rs))
              j.packs
          ∙ delete-delete (named id) (is_in (λ p. p.pack_id) ids) s.1.packs;
      shards =
          h.shards
          ∙ ap (λ rs. delete_where (is_in (λ p. p.pack_id) ids) (delete_where (of_pack id) rs))
              j.shards
          ∙ delete-delete (of_pack id) (is_in (λ p. p.pack_id) ids) s.1.pack_shards;
      locations =
          h.locations
          ∙ ap (λ rs. delete_where (is_in (λ p. p.pack_id) ids) (delete_where (located_in id) rs))
              j.locations
          ∙ delete-delete (located_in id) (is_in (λ p. p.pack_id) ids) s.1.pack_locations;
      refs = h.refs ∙ j.refs;
    }

is_dead : (db : Db) (p : Pack) → not (is_referenced db p) ≡ true → is_live db p.pack_id ≡ false
is_dead db p h = ground arith

-- A row of an orphan is not of a live pack.
in_orphans-dead {ℓ} :
    {A : Type ℓ} (key : A → String) (db : Db) (ps : List Pack) (r : A)
    → All (λ p. not (is_referenced db p) ≡ true) ps
    → is_in key (map (λ p. p.pack_id) ps) r ≡ true
    → is_live db (key r) ≡ false
in_orphans-dead key db [] r h e = absurd (ground arith)
in_orphans-dead key db (p ∷ ps) r h e = elim (Bool-cases (str_eq (key r) p.pack_id)) [
  | inl q ↦ ap (is_live db) ((eq_iff (key r) p.pack_id).0 q) ∙ is_dead db p h.0
  | inr q ↦ in_orphans-dead key db ps r h.1 (ground arith)
]

orphan-dead {ℓ} :
    {A : Type ℓ} (key : A → String) (db : Db) (r : A)
    → is_in key (orphan_ids db) r ≡ true
    → is_live db (key r) ≡ false
unfolding orphan_ids
orphan-dead key db r e =
    in_orphans-dead key db _ r (select_where-All (λ p. not (is_referenced db p)) db.packs) e

-- The packs that hold a chunk of some revision keep their rows, their shards and their locations,
-- and the chunk references stay.
pub live_packs_kept :
    (db : Db)
    → let db' = (gc_orphan_packs db).1 in
      (select_where (λ p. is_live db p.pack_id) db'.packs
        ≡ select_where (λ p. is_live db p.pack_id) db.packs)
      × (select_where (λ s. is_live db s.pack_id) db'.pack_shards
          ≡ select_where (λ s. is_live db s.pack_id) db.pack_shards)
      × (select_where (λ l. is_live db l.pack_id) db'.pack_locations
          ≡ select_where (λ l. is_live db l.pack_id) db.pack_locations)
      × (db'.chunk_refs ≡ db.chunk_refs)
unfolding gc_orphan_packs
live_packs_kept db =
    let h = delete_orphans-Remains (orphan_ids db) (no_deletions (orphan_ids db), db) in
    (
      ap (select_where _) h.packs
          ∙ select-delete_other _ _ db.packs (orphan-dead (λ p. p.pack_id) db),
      ap (select_where _) h.shards
          ∙ select-delete_other _ _ db.pack_shards (orphan-dead (λ p. p.pack_id) db),
      ap (select_where _) h.locations
          ∙ select-delete_other _ _ db.pack_locations (orphan-dead (λ p. p.pack_id) db),
      h.refs,
    )

abbrev unreferenced : Db → Pack → Bool
unreferenced db p = not (is_referenced db p)

abbrev ids_of : List Pack → List String
ids_of ps = map (λ p. p.pack_id) ps

listed_first :
    (db : Db) (p r : Pack) (rs : List Pack)
    → p ≡ r
    → unreferenced db p ≡ true
    → is_in (λ q. q.pack_id) (ids_of (select_where (unreferenced db) (r ∷ rs))) p ≡ true
unfolding select_where
listed_first db p r rs q e =
    let t : unreferenced db r ≡ true = ap (unreferenced db) (sym q) ∙ e in
    let same : str_eq p.pack_id r.pack_id ≡ true =
      (eq_iff p.pack_id r.pack_id).1 (ap (λ (x : Pack). x.pack_id) q) in
    rw (t, same)

listed_later :
    (db : Db) (p r : Pack) (rs : List Pack)
    → is_in (λ q. q.pack_id) (ids_of (select_where (unreferenced db) rs)) p ≡ true
    → is_in (λ q. q.pack_id) (ids_of (select_where (unreferenced db) (r ∷ rs))) p ≡ true
unfolding select_where
listed_later db p r rs h = elim (Bool-cases (unreferenced db r)) [
  | inl e ↦ rw e (ground arith)
  | inr e ↦ rw e h
]

-- An unreferenced pack of the table is among the orphans.
listed :
    (db : Db) (p : Pack) (ps : List Pack)
    → Memᴰ p ps
    → unreferenced db p ≡ true
    → is_in (λ q. q.pack_id) (ids_of (select_where (unreferenced db) ps)) p ≡ true
listed db p [] m e = elim m [ ]
listed db p (r ∷ rs) (Memᴰ.head q) e = listed_first db p r rs q e
listed db p (r ∷ rs) (Memᴰ.tail m) e = listed_later db p r rs (listed db p rs m e)

kept-live :
    (db : Db) (p : Pack)
    → Memᴰ p db.packs
    → is_in (λ q. q.pack_id) (orphan_ids db) p ≡ false
    → is_live db p.pack_id ≡ true
unfolding orphan_ids
kept-live db p m h = elim (Bool-cases (is_live db p.pack_id)) [
  | inl e ↦ e
  | inr e ↦
      let t : unreferenced db p ≡ true = rw e refl in
      let l = listed db p db.packs m t in absurd (ground arith)
]

-- A live pack keeps the location that makes it live.
live-kept :
    (db : Db) (pack_id : String)
    → is_live db pack_id ≡ true
    → any_where
        (holds_live_chunk pack_id db.chunk_refs)
        (delete_where (is_in (λ l. l.pack_id) (orphan_ids db)) db.pack_locations)
      ≡ true
live-kept db pack_id h =
    any-delete_other (holds_live_chunk pack_id db.chunk_refs)
      (is_in (λ l. l.pack_id) (orphan_ids db)) db.pack_locations
      (λ l e. elim (Bool-cases (str_eq l.pack_id pack_id)) [
        | inl q ↦
            let dead : is_live db pack_id ≡ false =
              sym (ap (is_live db) ((eq_iff l.pack_id pack_id).0 q))
              ∙ orphan-dead (λ (x : PackLocation). x.pack_id) db l e in
            absurd (ground arith)
        | inr q ↦ rw q refl
      ])
    ∙ h

-- Behind the collection no pack is an orphan.
pub no_orphan_left :
    (db : Db) → let db' = (gc_orphan_packs db).1 in All (λ p. is_referenced db' p ≡ true) db'.packs
unfolding gc_orphan_packs delete_where
no_orphan_left db =
    let h = delete_orphans-Remains (orphan_ids db) (no_deletions (orphan_ids db), db) in
    rw (h.packs, h.locations, h.refs) (remaining db.packs (All-Memᴰ db.packs))
  where
    remaining :
        (ps : List Pack)
        → All (λ p. Memᴰ p db.packs) ps
        → All
            (λ p.
              any_where
                (holds_live_chunk p.pack_id db.chunk_refs)
                (delete_where (is_in (λ l. l.pack_id) (orphan_ids db)) db.pack_locations)
              ≡ true)
            (delete_where (is_in (λ q. q.pack_id) (orphan_ids db)) ps)
    remaining [] m = tt
    remaining (p ∷ ps) m = elim (Bool-cases (is_in (λ q. q.pack_id) (orphan_ids db) p)) [
      | inl e ↦ rw (delete_where, e) (remaining ps m.1)
      | inr e ↦
          rw (delete_where, e) (live-kept db p.pack_id (kept-live db p m.0 e), remaining ps m.1)
    ]

no_orphan_ids : (db : Db) → All (λ p. is_referenced db p ≡ true) db.packs → orphan_ids db ≡ []
unfolding orphan_ids select_where
no_orphan_ids db h = ap ids_of (none_selected db.packs h)
  where
    none_selected :
        (ps : List Pack)
        → All (λ p. is_referenced db p ≡ true) ps
        → select_where (unreferenced db) ps ≡ []
    none_selected [] k = refl
    none_selected (p ∷ ps) k = rw (k.0, none_selected ps k.1)

-- The collection is idempotent: a second one reports no pack and changes nothing.
pub gc_orphan_packs_idem :
    (db : Db) → let db' = (gc_orphan_packs db).1 in gc_orphan_packs db' ≡ (no_deletions [], db')
unfolding gc_orphan_packs
gc_orphan_packs_idem db =
    collected (gc_orphan_packs db).1 (no_orphan_ids (gc_orphan_packs db).1 (no_orphan_left db))
  where
    collected : (d : Db) → orphan_ids d ≡ [] → gc_orphan_packs d ≡ (no_deletions [], d)
    collected d e = rw e refl
