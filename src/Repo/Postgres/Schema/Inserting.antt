-- ===== src/Repo/Postgres/Schema/Inserting.antt =====
-- Every insertion of the repositories fits its table.
use poc_dcs.Common.{string_eq, text_eq, false, List}
use poc_dcs.Repo.Postgres.Sql.{Datum, Insert}
use poc_dcs.Repo.Postgres.Schema
use poc_dcs.Repo.Postgres.Schema.{Column, SqlType, FitsValues}

abbrev optional : SqlType → Column
optional t = record { type = t; not_null = false }

abbrev pub Inserts : Schema.Columns → Insert → List Datum → Type 0
Inserts columns i args = FitsValues columns args i.columns i.values
