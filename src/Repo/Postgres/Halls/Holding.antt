-- ===== src/Repo/Postgres/Halls/Holding.antt =====
-- When the database holds a hall.
use poc_dcs.Common.{String, Text, ◌≡◌, refl, sym, ap, ◌∙◌, Option, none, some, List, ok, In}
use poc_dcs.Action.{map_result-eq-ok}
use poc_dcs.Repo.Halls.{Hall, HallRecord, hall_record}
use poc_dcs.Repo.Postgres.Sql.{Datum, name, uuid, Uuids, as_uuid, as_name}
use poc_dcs.Repo.Postgres.Scan.{scan_hall_record, scan_hall}
use poc_dcs.Repo.Postgres.Scan.Cells.{scan_hall_record-ok}
use poc_dcs.Repo.Postgres.Meaning.{Row, cell, project}
use poc_dcs.Repo.Postgres.Halls.{halls_of_tenant, scan_found}

-- `kept` is the print of the UUID that `given` spells.
abbrev pub Kept : Uuids → Text → Text → Type 0
Kept u given kept = (v : Text) × (u.parse given ≡ some v) × (kept ≡ u.print v)

-- The hall of a record.
abbrev pub hall_of : HallRecord → Hall
hall_of rec = record {
  tenant_id = rec.tenant_id;
  id = rec.id;
  name = rec.name;
  owner_user_id = rec.owner_user_id;
  current_film_id = rec.current_film_id;
}

module _ (u : Uuids) where
  pub scan_found-ok :
      (answer : Option (List Datum)) (hall : Hall)
      → scan_found u answer ≡ ok (some hall)
      → (cells : List Datum) × (answer ≡ some cells) × (scan_hall u cells ≡ ok hall)
  scan_found-ok none hall h = cc
  scan_found-ok (some cells) hall h =
      let (hall', got, same) = map_result-eq-ok some (scan_hall u cells) h in
      (cells, refl, cc (got, same))

  pub scan_found-none :
      (answer : Option (List Datum)) → scan_found u answer ≡ ok none → answer ≡ none
  scan_found-none none h = refl
  scan_found-none (some cells) h =
      let (hall', got, same) = map_result-eq-ok some (scan_hall u cells) h in cc same

module _ {D : Type 0} (u : Uuids) (tables : D → String → List Row) where
  -- A row of the table is scanned as the hall.
  abbrev pub Holds : D → Hall → Type 0
  Holds d hall =
      (row : Row) × In row (tables d "halls")
      × (scan_hall_record u (project halls_of_tenant.items row) ≡ ok (hall_record hall))

module _ (u : Uuids) where
  -- A row that is scanned has the tenant that its record has.
  pub scanned-tenant :
      (row : Row) (rec : HallRecord) (tenant : String)
      → scan_hall_record u (project halls_of_tenant.items row) ≡ ok rec
      → cell "tenant_id" row ≡ name tenant
      → rec.tenant_id ≡ tenant
  unfolding as_name
  scanned-tenant row rec tenant h e =
      let (_, t, _, _, _) = scan_hall_record-ok u _ _ _ _ _ rec h in cc (sym t ∙ ap as_name e)

  pub scanned-id :
      (row : Row) (rec : HallRecord) (w : Text)
      → scan_hall_record u (project halls_of_tenant.items row) ≡ ok rec
      → cell "id" row ≡ uuid w
      → rec.id ≡ u.print w
  unfolding as_uuid
  scanned-id row rec w h e =
      let (i, _, _, _, _) = scan_hall_record-ok u _ _ _ _ _ rec h in cc (sym i ∙ ap (as_uuid u) e)
