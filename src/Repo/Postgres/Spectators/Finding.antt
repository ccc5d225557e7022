-- ===== src/Repo/Postgres/Spectators/Finding.antt =====
-- Searching for a spectator after one was created, over PostgreSQL.
use poc_dcs.Common.{String, Text, ◌≡◌, refl, sym, ap, ◌∙◌, subst, List, [], ◌∷◌, ok, In, arith}
use poc_dcs.Action.{bind-ok_at}
use poc_dcs.Repo.Spectators.{Spectator}
use poc_dcs.Repo.Postgres.Sql.{
  Datum, name, blob, Pool, Uuids, lift, set_uuid, as_name, as_text, as_blob, as_uuid, as_labels,
  as_timestamp,
}
use poc_dcs.Repo.Postgres.Sql.Rows.{scan_rows_sound, scan_rows_complete}
use poc_dcs.Repo.Postgres.Scan.{scan_spectator}
use poc_dcs.Repo.Postgres.Scan.Cells.{set_uuid-ok}
use poc_dcs.Repo.Postgres.Meaning.{Row, cell, project, IsPostgres}
use poc_dcs.Repo.Postgres.Spectators.{
  create, find_by_external_id_lookup, insert_spectator, spectators_of_lookup, spectator_args,
}
use poc_dcs.Repo.Postgres.Halls.Holding.{Kept}

-- The spectator that is kept for one that was given.
pub record IsKept (u : Uuids) (given kept : Spectator) : Type 0 where
  pub tenant : kept.tenant_id ≡ given.tenant_id
  pub id : Kept u given.id kept.id
  pub hall : Kept u given.hall_id kept.hall_id
  pub name : kept.name_ct ≡ given.name_ct
  pub age : kept.age_ct ≡ given.age_ct
  pub external_id : kept.external_id_ct ≡ given.external_id_ct
  pub digest : kept.external_id_lookup ≡ given.external_id_lookup

module _ (u : Uuids) where
  scan_spectator-ok :
      (tenant id hall title age external digest marks created : Datum) (s : Spectator)
      → scan_spectator u
          (tenant ∷ id ∷ hall ∷ title ∷ age ∷ external ∷ digest ∷ marks ∷ created ∷ [])
        ≡ ok s
      → (as_name tenant ≡ ok s.tenant_id) × (as_blob digest ≡ ok s.external_id_lookup)
  unfolding scan_spectator
  scan_spectator-ok tenant id hall title age external digest marks created s h = ground arith

  module _ {D : Type 0} (pool : Pool D) (tables : D → String → List Row)
      (pg : IsPostgres u pool tables) where
    abbrev Reads : D → Spectator → Type 0
    Reads d s =
        (row : Row) × In row (tables d "spectators")
        × (cell "tenant_id" row ≡ name s.tenant_id)
        × (cell "external_id_lookup" row ≡ blob s.external_id_lookup)
        × (scan_spectator u (project spectators_of_lookup.items row) ≡ ok s)

    create-Reads :
        (given : Spectator) (d : D)
        → (create u pool given d).0 ≡ ok tt
        → (kept : Spectator) × IsKept u given kept × Reads (create u pool given d).1 kept
    unfolding create scan_spectator as_name as_text as_blob as_uuid as_labels as_timestamp
    create-Reads given d made =
        let (now, told, made1) = bind-ok_at pool.now _ d made in
        let d1 = (pool.now d).1 in
        let (id, set_id, made2) = bind-ok_at (lift (set_uuid u given.id)) _ d1 made1 in
        let (hall, set_hall, made3) = bind-ok_at (lift (set_uuid u given.hall_id)) _ d1 made2 in
        let (row, there, (c1, (c2, (c3, (c4, (c5, (c6, (c7, (c8, (c9, _)))))))))) =
          pg.exec_adds insert_spectator (spectator_args given id hall now) d1 made3 in
        (
          record given { id = u.print id; hall_id = u.print hall },
          record {
            tenant = refl;
            id = (id, set_uuid-ok u given.id id set_id, refl);
            hall = (hall, set_uuid-ok u given.hall_id hall set_hall, refl);
            name = refl;
            age = refl;
            external_id = refl;
            digest = refl;
          },
          (
            row,
            rw (told, set_id, set_hall) there,
            c1,
            c7,
            rw (c1, c2, c3, c4, c5, c6, c7, c8, c9) refl,
          ),
        )

    find_finds :
        (s : Spectator) (d : D) (found : List Spectator)
        → (find_by_external_id_lookup u pool s.tenant_id s.external_id_lookup d).0 ≡ ok found
        → Reads d s
        → In s found
    unfolding find_by_external_id_lookup
    find_finds s d found searched (row, there, tenant, digest, scans) =
        let asked = name s.tenant_id ∷ blob s.external_id_lookup ∷ [] in
        let (rows, got, scanned) =
          bind-ok_at (pool.query spectators_of_lookup asked) _ d searched in
        let (a, at, scans') =
          scan_rows_complete (scan_spectator u) rows found (project spectators_of_lookup.items row)
            scanned
            (pg.query_complete spectators_of_lookup asked d rows got refl row
              (there, (tenant, (digest, tt)))) in
        subst (λ x. In x found) (cc (scans, scans')) at

    find_sound :
        (tenant : String) (digest : Text) (d : D) (found : List Spectator) (s : Spectator)
        → (find_by_external_id_lookup u pool tenant digest d).0 ≡ ok found
        → In s found
        → (s.tenant_id ≡ tenant) × (s.external_id_lookup ≡ digest)
    unfolding find_by_external_id_lookup as_name as_blob
    find_sound tenant digest d found s searched at =
        let asked = name tenant ∷ blob digest ∷ [] in
        let (rows, got, scanned) =
          bind-ok_at (pool.query spectators_of_lookup asked) _ d searched in
        let (answer, of, scans) = scan_rows_sound (scan_spectator u) rows found s scanned at in
        let (row, (there, (t, (l, _))), shown) =
          pg.query_sound spectators_of_lookup asked d rows got answer of in
        let (t', l') =
          scan_spectator-ok _ _ _ _ _ _ _ _ _ s (ap (scan_spectator u) (sym shown) ∙ scans) in
        (cc (sym t' ∙ ap as_name t), cc (sym l' ∙ ap as_blob l))

    -- Where a creation and a search that follows it are answered, the search by the tenant and the
    -- digest of the spectator that was created finds it, with its ciphertexts and with its
    -- identifiers as UUIDs are printed; and all that a search finds is of its tenant and digest.
    pub create_then_find :
        (given : Spectator) (d : D) (found : List Spectator)
        → (create u pool given d).0 ≡ ok tt
        → (find_by_external_id_lookup u pool given.tenant_id given.external_id_lookup
            (create u pool given d).1).0
          ≡ ok found
        → ((kept : Spectator) × In kept found × IsKept u given kept)
          × ((s : Spectator)
              → In s found
              → (s.tenant_id ≡ given.tenant_id) × (s.external_id_lookup ≡ given.external_id_lookup))
    create_then_find given d found made searched =
        let (kept, is, reads) = create-Reads given d made in
        (
          (
            kept,
            find_finds kept (create u pool given d).1 found (rw (is.tenant, is.digest) searched)
                reads,
            is,
          ),
          λ s at.
              find_sound given.tenant_id given.external_id_lookup (create u pool given d).1 found s
                searched at,
        )
