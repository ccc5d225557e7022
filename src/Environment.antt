-- ===== src/Environment.antt =====
-- internal/config/config.go: the configuration of the process, read from its environment.
pub mod Durations
use poc_dcs.Common.{
  String, bytes, ℕ, zero, suc, ◌-◌, ◌*◌, ◌%◌, ◌^◌, Bool, true, false, ◌||◌, ℤ, pos, negsuc, Option,
  none, some, ltb, string_eq, ◌==◌, if◌then◌else◌,
}
use poc_dcs.Strings.{trim_space, to_lower}
use poc_dcs.Strconv.{atoi}

-- The levels of log/slog.
pub data Level : Type 0 where
  debug info warn error : Level

pub record Config : Type 0 where
  pub env : String
  pub service : String
  pub http_addr : String
  pub grpc_addr : String
  pub log_level : Level
  pub database_url : String
  pub vault_addr : String
  pub vault_token : String
  pub vault_transit_key : String
  pub vault_kv_pepper_path : String
  pub jwt_secret : String
  pub jwt_issuer : String
  pub jwt_audience : String
  pub jwt_ttl_min : ℤ
  pub dcs_mode : String
  pub dcs_config_path : String
  pub cache_level : ℤ
  pub perf_source : String
  pub cache_max_entries : ℤ
  pub cache_ttl_classif : ℤ
  pub cache_ttl_pdp : ℤ
  pub cache_ttl_kms : ℤ
  pub cache_ttl_pepper : ℤ
  pub enable_pprof : Bool

-- strconv.ParseBool, with false for a text it refuses.
unfoldable pub parse_bool : String → Bool
unfolding trim_space
parse_bool raw =
    let v = trim_space raw in
    v == "1" || v == "t" || v == "T" || v == "TRUE" || v == "true" || v == "True"

abbrev pub or_int : ℤ → Option ℤ → ℤ
or_int fallback none = fallback
or_int fallback (some v) = v

unfoldable pub parse_int : String → ℤ → ℤ
unfolding trim_space atoi
parse_int raw fallback = or_int fallback (atoi (bytes (trim_space raw)))

-- The `int64` of a product.
abbrev pub wrapped : ℕ → ℤ
wrapped n = let m = n % 2 ^ 64 in if ltb m (2 ^ 63) then pos m else negsuc (2 ^ 64 - 1 - m)

abbrev pub seconds_or : ℕ → Option ℤ → ℕ
seconds_or fallback (some (pos (suc n))) = suc n
seconds_or fallback (some (pos zero)) = fallback
seconds_or fallback (some (negsuc n)) = fallback
seconds_or fallback none = fallback

-- `time.Duration(v) * time.Second`, in nanoseconds.
unfoldable pub parse_duration_seconds : String → ℕ → ℤ
unfolding trim_space atoi
parse_duration_seconds raw fallback =
    wrapped (seconds_or fallback (atoi (bytes (trim_space raw))) * 1_000_000_000)

unfoldable pub parse_log_level : String → Level
unfolding trim_space to_lower
parse_log_level raw =
    let level = to_lower (trim_space raw) in
    if level == "debug"
    then debug
    else if level == "warn" || level == "warning"
    then warn
    else if level == "error"
    then error
    else info

-- `os.Getenv` is a parameter; a variable that is not set is the empty string.
module _ (environment : String → String) where
  unfoldable pub getenv : String → String → String
  unfolding trim_space
  getenv key fallback =
      if trim_space (environment key) == "" then fallback else trim_space (environment key)

  unfoldable pub load : Config
  unfolding getenv parse_int parse_duration_seconds parse_log_level parse_bool
  load = record {
    env = getenv "ENV" "dev";
    service = getenv "SERVICE_NAME" "cinema-dcs-backend-go";
    http_addr = getenv "HTTP_ADDR" ":8001";
    grpc_addr = getenv "GRPC_ADDR" ":50051";
    log_level = parse_log_level (getenv "LOG_LEVEL" "INFO");
    database_url = getenv "DATABASE_URL" "";
    vault_addr = getenv "VAULT_ADDR" "http://localhost:8200";
    vault_token = getenv "VAULT_TOKEN" "";
    vault_transit_key = getenv "VAULT_TRANSIT_KEY" "cinema-dcs";
    vault_kv_pepper_path = getenv "VAULT_KV_PEPPER_PATH" "secret/dcs";
    jwt_secret = getenv "JWT_SECRET" "dev-secret-change-me";
    jwt_issuer = getenv "JWT_ISSUER" "cinema-dcs-poc";
    jwt_audience = getenv "JWT_AUDIENCE" "cinema-ui";
    jwt_ttl_min = parse_int (getenv "JWT_TTL_MINUTES" "240") (pos 240);
    dcs_mode = getenv "DCS_MODE" "on";
    dcs_config_path = getenv "DCS_CONFIG_PATH" "";
    cache_level = parse_int (getenv "CACHE_LEVEL" "1") (pos 1);
    perf_source = getenv "PERF_SOURCE" "go";
    cache_max_entries = parse_int (getenv "CACHE_MAX_ENTRIES" "500") (pos 500);
    cache_ttl_classif = parse_duration_seconds (getenv "CACHE_TTL_CLASSIF_SEC" "300") 300;
    cache_ttl_pdp = parse_duration_seconds (getenv "CACHE_TTL_PDP_SEC" "60") 60;
    cache_ttl_kms = parse_duration_seconds (getenv "CACHE_TTL_KMS_SEC" "10") 10;
    cache_ttl_pepper = parse_duration_seconds (getenv "CACHE_TTL_PEPPER_SEC" "300") 300;
    enable_pprof = parse_bool (getenv "ENABLE_PPROF" "false");
  }
