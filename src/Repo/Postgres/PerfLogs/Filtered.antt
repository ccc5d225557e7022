-- ===== src/Repo/Postgres/PerfLogs/Filtered.antt =====
-- Which performance logs the repository lists.
use poc_dcs.Common.{
  String, zero, suc, ◌≤◌, ◌+◌, ℤ, pos, negsuc, ◌≡◌, refl, sym, ap, ◌∙◌, Option, none, some, List,
  [], ◌∷◌, ◌++◌, ok, In, arith, length, pos_part,
}
use poc_dcs.Action.{bind-ok_at}
use poc_dcs.Strings.{trim_space}
use poc_dcs.Service.System.{PerfLog}
use poc_dcs.Repo.Postgres.Sql.{Datum, name, int, Pool, Uuids, as_name}
use poc_dcs.Repo.Postgres.Sql.Rows.{scan_rows_sound, length-scan_rows}
use poc_dcs.Repo.Postgres.Scan.{scan_perf_log}
use poc_dcs.Repo.Postgres.Meaning.{Row, cell, item_value, Matches, IsPostgres}
use poc_dcs.Repo.Postgres.Meaning.{arg}
use poc_dcs.Repo.Postgres.PerfLogs.{
  list, list_filter, limit_or_default, select_perf_logs, source_item,
}

-- The log is of the tenant, and has the action and the source that are asked for.
pub record IsAsked (tenant : String) (action source : Option String) (log : PerfLog) : Type 0 where
  pub of_tenant : log.tenant_id ≡ tenant
  pub of_action : (a : String) → action ≡ some a → log.action ≡ trim_space a
  pub of_source : (a : String) → source ≡ some a → log.source ≡ trim_space a

module _ (u : Uuids) where
  scan_perf_log-ok :
      (ts req tenant user role src act res dcs level total pip pdp kms db : Datum) (log : PerfLog)
      → scan_perf_log u (
          ts ∷ req ∷ tenant ∷ user ∷ role ∷ src ∷ act ∷ res ∷ dcs ∷ level ∷ total ∷ pip ∷ pdp ∷ kms
          ∷ db ∷ [])
        ≡ ok log
      → (as_name tenant ≡ ok log.tenant_id)
        × (as_name src ≡ ok log.source)
        × (as_name act ≡ ok log.action)
  unfolding scan_perf_log
  scan_perf_log-ok ts req tenant user role src act res dcs level total pip pdp kms db log h =
      ground arith

  -- The conditions that are put together hold exactly of the rows that are asked for.
  matched :
      (tenant : String) (limit : Datum) (action source : Option String) (row : Row)
      → let f = list_filter tenant action source in
        Matches u (f.args ++ (limit ∷ [])) row f.tests
        → (cell "tenant_id" row ≡ name tenant)
          × ((a : String) → action ≡ some a → cell "action" row ≡ name (trim_space a))
          × ((a : String) → source ≡ some a → item_value row source_item ≡ name (trim_space a))
  unfolding list_filter
  matched tenant limit none none row (t, _) = (t, λ a e. cc e, λ a e. cc e)
  matched tenant limit (some x) none row (t, (a, _)) = (t, λ a' e. cc (a, e), λ a' e. cc e)
  matched tenant limit none (some x) row (t, (b, _)) = (t, λ a' e. cc e, λ a' e. cc (b, e))
  matched tenant limit (some x) (some y) row (t, (a, (b, _))) =
      (t, λ a' e. cc (a, e), λ a' e. cc (b, e))

  -- The last argument is the limit.
  limit_arg :
      (tenant : String) (limit : Datum) (action source : Option String)
      → let f = list_filter tenant action source in
        arg (length f.args + 1) (f.args ++ (limit ∷ [])) ≡ limit
  unfolding list_filter
  limit_arg tenant limit none none = refl
  limit_arg tenant limit (some x) none = refl
  limit_arg tenant limit none (some x) = refl
  limit_arg tenant limit (some x) (some y) = refl

limit_or_default-pos :
    (limit : ℤ) → limit_or_default limit ≡ pos (pos_part (limit_or_default limit))
unfolding limit_or_default
limit_or_default-pos (pos zero) = refl
limit_or_default-pos (pos (suc n)) = refl
limit_or_default-pos (negsuc n) = refl

module _ (u : Uuids) {D : Type 0} (pool : Pool D) (tables : D → String → List Row)
    (pg : IsPostgres u pool tables) (tenant : String) (limit : ℤ)
    (action source : Option String) where
  -- However the query is put together from the filters that are given, each log of an answered list
  -- is of the tenant and has the trimmed action and source that are asked for, one without a
  -- source counting as `unknown`; and there are at most as many as the limit, which is 200 where
  -- it is not positive.
  pub list-IsAsked :
      (d : D) (logs : List PerfLog)
      → (list u pool tenant limit action source d).0 ≡ ok logs
      → ((log : PerfLog) → In log logs → IsAsked tenant action source log)
        × (length logs ≤ pos_part (limit_or_default limit))
  unfolding list as_name
  list-IsAsked d logs listed =
      let f = list_filter tenant action source in
      let s = select_perf_logs f in
      let args = f.args ++ (int (limit_or_default limit) ∷ []) in
      let (rows, asked, scanned) = bind-ok_at (pool.query s args) _ d listed in
      let counted =
        pg.query_limit s args d rows asked (length f.args + 1) (pos_part (limit_or_default limit))
          refl
          (limit_arg u tenant (int (limit_or_default limit)) action source
            ∙ ap int (limit_or_default-pos limit)) in
      (
        λ log at.
            let (answer, of, got) = scan_rows_sound (scan_perf_log u) rows logs log scanned at in
            let (row, (there, tests), shown) = pg.query_sound s args d rows asked answer of in
            let (t, b, a) =
              scan_perf_log-ok u _ _ _ _ _ _ _ _ _ _ _ _ _ _ _ log
                (ap (scan_perf_log u) (sym shown) ∙ got) in
            let (t', a', b') =
              matched u tenant (int (limit_or_default limit)) action source row tests in
            record {
              of_tenant = cc (sym t ∙ ap as_name t');
              of_action = λ x e. cc (sym a ∙ ap as_name (a' x e));
              of_source = λ x e. cc (sym b ∙ ap as_name (b' x e));
            },
        omega (arith, counted, length-scan_rows (scan_perf_log u) rows logs scanned),
      )
