-- ===== src/Repo/Postgres/Halls/Reading.antt =====
-- Which halls are listed and found.
use poc_dcs.Common.{String, Text, ◌≡◌, refl, sym, ap, ◌∙◌, subst, none, some, List, [], ◌∷◌, ok, In}
use poc_dcs.Action.{bind-ok_at}
use poc_dcs.Repo.Halls.{Hall, HallRecord, hall_record}
use poc_dcs.Repo.Postgres.Sql.{name, uuid, Pool, Uuids, set_uuid, lift}
use poc_dcs.Repo.Postgres.Sql.Rows.{scan_rows_sound, scan_rows_complete}
use poc_dcs.Repo.Postgres.Scan.{scan_hall_record, scan_hall}
use poc_dcs.Repo.Postgres.Scan.Cells.{
  scan_hall_record-ok, as_name-eq-ok, scan_hall-ok, set_uuid-ok, as_uuid-print,
}
use poc_dcs.Repo.Postgres.Meaning.{Row, cell, project, IsUuid, IsPostgres}
use poc_dcs.Repo.Postgres.Halls.{halls_of_tenant, hall_of_id, list_by_tenant, find_by_id}
use poc_dcs.Repo.Postgres.Halls.Holding.{
  Kept, hall_of, Holds, scanned-tenant, scanned-id, scan_found-ok, scan_found-none,
}

module _ (u : Uuids) {D : Type 0} (pool : Pool D) (tables : D → String → List Row) where
  module _ (is_uuid : IsUuid u) (pg : IsPostgres u pool tables) where
    pub list_sound :
        (tenant : String) (d : D) (records : List HallRecord) (rec : HallRecord)
        → (list_by_tenant u pool tenant d).0 ≡ ok records
        → In rec records
        → (hall : Hall) × Holds u tables d hall
          × (hall.tenant_id ≡ tenant)
          × (hall_record hall ≡ rec)
    unfolding list_by_tenant
    list_sound tenant d records rec listed at =
        let (rows, asked, scanned) =
          bind-ok_at (pool.query halls_of_tenant (name tenant ∷ [])) _ d listed in
        let (answer, of, got) = scan_rows_sound (scan_hall_record u) rows records rec scanned at in
        let (row, (there, (test, _)), shown) =
          pg.query_sound halls_of_tenant (name tenant ∷ []) d rows asked answer of in
        let scans : scan_hall_record u (project halls_of_tenant.items row) ≡ ok rec =
          ap (scan_hall_record u) (sym shown) ∙ got in
        (hall_of rec, (row, there, scans), scanned-tenant u row rec tenant scans test, refl)

    pub list_complete :
        (tenant : String) (d : D) (records : List HallRecord) (hall : Hall)
        → (list_by_tenant u pool tenant d).0 ≡ ok records
        → Holds u tables d hall
        → hall.tenant_id ≡ tenant
        → In (hall_record hall) records
    unfolding list_by_tenant
    list_complete tenant d records hall listed (row, there, scans) of =
        let (rows, asked, scanned) =
          bind-ok_at (pool.query halls_of_tenant (name tenant ∷ [])) _ d listed in
        let (_, t, _, _, _) = scan_hall_record-ok u _ _ _ _ _ (hall_record hall) scans in
        let test : cell "tenant_id" row ≡ name tenant =
          as_name-eq-ok (cell "tenant_id" row) (t ∙ ap ok of) in
        let at =
          pg.query_complete halls_of_tenant (name tenant ∷ []) d rows asked refl row
            (there, (test, tt)) in
        let (rec, at', scans') =
          scan_rows_complete (scan_hall_record u) rows records (project halls_of_tenant.items row)
            scanned at in
        subst (λ r. In r records) (cc (scans, scans')) at'

    pub find_sound :
        (tenant : String) (id : Text) (d : D) (hall : Hall)
        → (find_by_id u pool tenant id d).0 ≡ ok (some hall)
        → Holds u tables d hall × (hall.tenant_id ≡ tenant) × Kept u id hall.id
    unfolding find_by_id
    find_sound tenant id d hall found =
        let (v, set, found') = bind-ok_at (lift (set_uuid u id)) _ d found in
        let parsed = set_uuid-ok u id v set in
        let (answer, asked, scanned) =
          bind-ok_at (pool.query_row hall_of_id (name tenant ∷ uuid v ∷ [])) _ d found' in
        let (cells, some_row, scans) = scan_found-ok u answer hall scanned in
        let (row, (there, (of, (same, _))), shown) =
          pg.query_row_found hall_of_id (name tenant ∷ uuid v ∷ []) d cells
            (asked ∙ ap ok some_row) in
        let scans' : scan_hall_record u (project halls_of_tenant.items row)
            ≡ ok (hall_record hall) =
          scan_hall-ok u _ _ _ _ _ _ _ hall (ap (scan_hall u) (sym shown) ∙ scans) in
        (
          (row, there, scans'),
          scanned-tenant u row (hall_record hall) tenant scans' of,
          (v, parsed, scanned-id u row (hall_record hall) v scans' same),
        )

    pub find_complete :
        (tenant : String) (id : Text) (d : D) (hall : Hall)
        → (find_by_id u pool tenant id d).0 ≡ ok none
        → Holds u tables d hall
        → hall.tenant_id ≡ tenant
        → ¬ (Kept u id hall.id)
    unfolding find_by_id
    find_complete tenant id d hall missing (row, there, scans) of (w, parsed, kept) =
        let (v, set, missing') = bind-ok_at (lift (set_uuid u id)) _ d missing in
        let parsed' = set_uuid-ok u id v set in
        let is : w ≡ v = cc (parsed, parsed') in
        let (answer, asked, scanned) =
          bind-ok_at (pool.query_row hall_of_id (name tenant ∷ uuid v ∷ [])) _ d missing' in
        let no_row = scan_found-none u answer scanned in
        let (i, t, _, _, _) = scan_hall_record-ok u _ _ _ _ _ (hall_record hall) scans in
        let test : cell "tenant_id" row ≡ name tenant =
          as_name-eq-ok (cell "tenant_id" row) (t ∙ ap ok of) in
        let same : cell "id" row ≡ uuid w =
          as_uuid-print u is_uuid (cell "id" row) w (i ∙ ap ok kept) in
        pg.query_row_missing hall_of_id (name tenant ∷ uuid v ∷ []) d (asked ∙ ap ok no_row) row
          (there, (test, (same ∙ ap uuid is, tt)))
