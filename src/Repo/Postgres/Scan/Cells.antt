-- ===== src/Repo/Postgres/Scan/Cells.antt =====
-- What a row held that was scanned.
use poc_dcs.Common.{String, Text, ◌≡◌, [], ◌∷◌, ok, arith, some}
use poc_dcs.Repo.Postgres.Meaning.{IsUuid}
use poc_dcs.Repo.Halls.{Hall, HallRecord, hall_record}
use poc_dcs.Repo.Postgres.Sql.{Datum, name, Uuids, as_name, as_text, as_uuid, set_uuid, null, uuid}
use poc_dcs.Repo.Postgres.Scan.{scan_hall_record, scan_hall}

pub as_name-eq-ok : (v : Datum) {s : String} → as_name v ≡ ok s → v ≡ name s
unfolding as_name
as_name-eq-ok (name s) h = cc
as_name-eq-ok _ h = cc

module _ (u : Uuids) (id tenant title owner film : Datum) where
  pub scan_hall_record-ok :
      (rec : HallRecord)
      → scan_hall_record u (id ∷ tenant ∷ title ∷ owner ∷ film ∷ []) ≡ ok rec
      → (as_uuid u id ≡ ok rec.id)
        × (as_name tenant ≡ ok rec.tenant_id)
        × (as_text title ≡ ok rec.name)
        × (as_uuid u owner ≡ ok rec.owner_user_id)
        × (as_uuid u film ≡ ok rec.current_film_id)
  unfolding scan_hall_record
  scan_hall_record-ok rec h = ground arith

module _ (u : Uuids) where
  -- A hall is scanned as its record is, and its labels and its time as well.
  pub scan_hall-ok :
      (id tenant title owner film marks created : Datum) (hall : Hall)
      → scan_hall u (id ∷ tenant ∷ title ∷ owner ∷ film ∷ marks ∷ created ∷ []) ≡ ok hall
      → scan_hall_record u (id ∷ tenant ∷ title ∷ owner ∷ film ∷ []) ≡ ok (hall_record hall)
  unfolding scan_hall scan_hall_record
  scan_hall-ok id tenant title owner film marks created hall h = ground arith

  pub set_uuid-ok : (s v : Text) → set_uuid u s ≡ ok v → u.parse s ≡ some v
  unfolding set_uuid
  set_uuid-ok s v h = ground arith

  -- Only the UUID itself is printed as it is.
  pub as_uuid-print :
      (is : IsUuid u) (x : Datum) (v : Text) → as_uuid u x ≡ ok (u.print v) → x ≡ uuid v
  unfolding as_uuid
  as_uuid-print is null v h = cc (is.parse-print v, is.parse_empty)
  as_uuid-print is (uuid w) v h = cc (is.parse-print v, is.parse-print w)
  as_uuid-print is _ v h = cc
