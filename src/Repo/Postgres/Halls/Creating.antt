-- ===== src/Repo/Postgres/Halls/Creating.antt =====
-- What a creation does to the halls that are held.
use poc_dcs.Common.{
  String, Text, ◌≡◌, refl, sym, ap, ◌∙◌, ◌⊎◌, inl, inr, some, List, Result, ok, err, Error, ℕ,
}
use poc_dcs.Action.{Result-cases}
use poc_dcs.Repo.Halls.{Hall}
use poc_dcs.Repo.Postgres.Sql.{as_text, Pool, Uuids, as_uuid, as_name, set_uuid}
use poc_dcs.Repo.Postgres.Scan.{scan_hall_record}
use poc_dcs.Repo.Postgres.Scan.Cells.{set_uuid-ok}
use poc_dcs.Repo.Postgres.Meaning.{Row, IsPostgres}
use poc_dcs.Repo.Postgres.Halls.{insert_hall, create, hall_args}
use poc_dcs.Service.Halls.Contract.{Stored}
use poc_dcs.Repo.Postgres.Halls.Holding.{Kept, Holds}

module _ (u : Uuids) {D : Type 0} (pool : Pool D) where
  -- A creation that reaches the database.
  record Runs (hall : Hall) (d : D) : Type 0 where
    id : Text
    owner : Text
    film : Text
    time : ℕ
    parsed_id : u.parse hall.id ≡ some id
    parsed_owner : u.parse hall.owner_user_id ≡ some owner
    parsed_film : u.parse hall.current_film_id ≡ some film
    runs :
        create u pool hall d
        ≡ pool.exec insert_hall (hall_args hall id owner film time) (pool.now d).1

  -- It does, or fails with nothing done but the reading of the clock.
  create-cases :
      (hall : Hall) (d : D)
      → Runs hall d
        ⊎ ((e : Error) × ((create u pool hall d).0 ≡ err e)
            × ((create u pool hall d).1 ≡ (pool.now d).1))
  unfolding create
  create-cases hall d = elim (Result-cases (pool.now d).0) [
    | inl (e, h) ↦ inr (e, rw h refl, rw h refl)
    | inr (time, now) ↦ elim (Result-cases (set_uuid u hall.id)) [
      | inl (e, h) ↦ inr (e, rw (now, h) refl, rw (now, h) refl)
      | inr (v, id) ↦ elim (Result-cases (set_uuid u hall.owner_user_id)) [
        | inl (e, h) ↦ inr (e, rw (now, id, h) refl, rw (now, id, h) refl)
        | inr (v', owner) ↦ elim (Result-cases (set_uuid u hall.current_film_id)) [
          | inl (e, h) ↦ inr (e, rw (now, id, owner, h) refl, rw (now, id, owner, h) refl)
          | inr (v'', film) ↦ inl (record {
            id = v;
            owner = v';
            film = v'';
            time = time;
            parsed_id = set_uuid-ok u hall.id v id;
            parsed_owner = set_uuid-ok u hall.owner_user_id v' owner;
            parsed_film = set_uuid-ok u hall.current_film_id v'' film;
            runs = rw (now, id, owner, film) refl;
          })
        ]
      ]
    ]
  ]

module _ (u : Uuids) {D : Type 0} (pool : Pool D) (tables : D → String → List Row) where
  module _ (pg : IsPostgres u pool tables) where
    pub create_holds :
        (hall : Hall) (d : D)
        → (create u pool hall d).0 ≡ ok tt
        → (kept : Hall) × Stored (Kept u) hall kept × Holds u tables (create u pool hall d).1 kept
    unfolding as_uuid as_name as_text scan_hall_record
    create_holds hall d done = elim (create-cases u pool hall d) [
      | inl ran ↦
          let (row, there, (t, (i, (n, (o, (f, _)))))) =
            pg.exec_adds insert_hall (hall_args hall ran.id ran.owner ran.film ran.time)
              (pool.now d).1 (sym (ap (λ (r : Result (Unit {0}) × D). r.0) ran.runs) ∙ done) in
          let kept : Hall = record hall {
            id = u.print ran.id;
            owner_user_id = u.print ran.owner;
            current_film_id = u.print ran.film;
          } in
          (
            kept,
            record {
              tenant = refl;
              id = (ran.id, ran.parsed_id, refl);
              name = refl;
              owner = (ran.owner, ran.parsed_owner, refl);
              film = (ran.film, ran.parsed_film, refl);
            },
            (row, rw ran.runs there, rw (i, t, n, o, f) refl),
          )
      | inr (e, failed, same) ↦ cc (failed, done)
    ]

    pub create_keeps :
        (hall other : Hall) (d : D)
        → Holds u tables d other
        → Holds u tables (create u pool hall d).1 other
    create_keeps hall other d (row, there, scans) = elim (create-cases u pool hall d) [
      | inl ran ↦ (
        row,
        rw ran.runs (
            pg.exec_keeps insert_hall (hall_args hall ran.id ran.owner ran.film ran.time)
              (pool.now d).1 "halls" row (rw (pg.now_keeps d) there)),
        scans,
      )
      | inr (e, failed, same) ↦ (row, rw (same, pg.now_keeps d) there, scans)
    ]

    pub create_only :
        (hall other : Hall) (d : D)
        → Holds u tables (create u pool hall d).1 other
        → Stored (Kept u) hall other ⊎ Holds u tables d other
    unfolding as_uuid as_name as_text scan_hall_record
    create_only hall other d (row, there, scans) = elim (create-cases u pool hall d) [
      | inl ran ↦
          elim (pg.exec_only insert_hall (hall_args hall ran.id ran.owner ran.film ran.time)
            (pool.now d).1 row (rw (← ran.runs) there)) [
              | inl (_, (t, (i, (n, (o, (f, _)))))) ↦
                  let scans' = rw (i, t, n, o, f) at scans in
                  inl (record {
                    tenant = cc scans';
                    id = (ran.id, ran.parsed_id, cc scans');
                    name = cc scans';
                    owner = (ran.owner, ran.parsed_owner, cc scans');
                    film = (ran.film, ran.parsed_film, cc scans');
                  })
              | inr old ↦ inr (row, rw (← pg.now_keeps d) old, scans)
            ]
      | inr (e, failed, same) ↦ inr (row, rw (same, pg.now_keeps d) at there, scans)
    ]
