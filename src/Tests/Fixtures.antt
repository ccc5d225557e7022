-- ===== src/Tests/Fixtures.antt =====
-- A small deployment: two callers, a spectator, a static store, and the local client over a
-- base64 that stands for the real one.
use poc_dcs.Common.{
  none, String, bytes, pos, true, false, [], ◌∷◌, Map, ◌≡◌, some, lookup, string_eq,
}
use poc_dcs.Types.{Principal, RequestContext, FieldMeta, PolicyInput}
use poc_dcs.Runtime
use poc_dcs.Config.{defaults}
use poc_dcs.World.{Oracle, World, Manager, new_manager}
use poc_dcs.Pip
use poc_dcs.Pip.{static_store}
use poc_dcs.Kms.{Base64, local_client}
use poc_dcs.Enforcer.{Parts}
use poc_dcs.Repo.Films
use poc_dcs.Repo.Films.{FilmRecord}
use poc_dcs.Service.System.{System, Logging}
use poc_dcs.Service.Films.{FilmService, memory_repository}
use poc_dcs.Types.{Decision}
use poc_dcs.Cache.Ttl
use poc_dcs.Cache.Ttl.{Entry}
use poc_dcs.Pdp.Cached.{CacheIsSound}
use poc_dcs.Tests.Digest.{digests}

abbrev pub oracle : Oracle
oracle = record { clock = λ n. n; victim = λ n. n }

-- The hexadecimal digits of each byte would do as well: text without blanks in, the same text out.
abbrev pub base64 : Base64
base64 = record { encode = λ s. s; decode = λ s. some s }

abbrev pub request : RequestContext
request = record {
  request_id = "r-1";
  client_ip = "10.0.0.1";
  channel = "";
  purpose = "";
  device_trust = 0;
  env = "";
}

abbrev pub someone : String → Principal
someone role = record {
  tenant_id = "acme";
  user_id = "u-1";
  username = "ada";
  role = role;
  scopes = [];
}

abbrev pub store : Pip.ClassificationStore
store = static_store (
    ("film", ("title", "PUBLIC") ∷ ("time_elapsed", "SENSITIVE") ∷ [])
    ∷ ("hall", ("owner_user_id", "INTERNAL") ∷ [])
    ∷ ("spectator", ("name", "PII") ∷ ("age", "PII") ∷ [])
    ∷ [])

abbrev pub pip_config : Pip.Config
pip_config = record {
  env = "test";
  channel = "web";
  purpose = "cinema_ops";
  device_trust = 800;
  client_ip_header = "x-real-ip";
}

abbrev pub parts : Parts
parts = record {
  oracle = oracle;
  digests = digests;
  pdp_config = defaults.pdp;
  pip_config = pip_config;
  store = store;
  kms = local_client base64;
  pepper_path = "pepper";
  hmac = λ key message. message;
  visit = λ w fields. fields;
}

abbrev pub empty_caches : Manager
empty_caches = new_manager (record {
  max_entries = pos 2;
  classification_ttl = pos 60;
  pdp_ttl = pos 60;
  kms_ttl = pos 60;
  pepper_ttl = pos 60;
})

abbrev pub start : World
start = record { settings = Runtime.new "on" (pos 2); caches = empty_caches; tick = 0 }

abbrev pub input_of : String → String → String → Map String FieldMeta → PolicyInput
input_of role action type fields = record {
  principal = someone role;
  action = action;
  resource = record {
    type = type;
    id = bytes "1";
    owner_id = [];
    tenant_id = "acme";
    labels = "b" ∷ "a" ∷ [];
    fields = fields;
  };
  context = request;
}

abbrev pub classified : String → FieldMeta
classified cls = record { classification = cls; crypto = [] }

abbrev pub spectator_fields : Map String FieldMeta
spectator_fields = ("name", classified "PII") ∷ ("age", classified "SENSITIVE") ∷ []

abbrev pub stored : FilmRecord
stored = record {
  tenant_id = "acme";
  id = Films.generate_id;
  title = bytes "Alien";
  time_elapsed_ct = bytes "vault:v1:10";
}

abbrev pub logs : Logging
logs = record {
  audited = true;
  measured = true;
  timings = λ w. record {
    total_ms = 1500;
    pip_ms = some 200;
    pdp_ms = some 100;
    kms_ms = none;
    db_ms = some 900;
  };
}

abbrev pub film_service : FilmService Films.Films
film_service = record {
  repo = memory_repository;
  enforcer = parts;
  logs = logs;
  map_order = λ fields. fields;
}

abbrev pub system : System Films.Films
system = record { world = start; store = stored ∷ []; trail = []; measures = [] }

no_entry :
    (key : String) (item : Entry Decision)
    → lookup key start.caches.pdp.store ≡ some item
    → (false ≡ true)
unfolding lookup new_manager Ttl.new
no_entry key item found = cc

pub start-CacheIsSound : CacheIsSound oracle digests defaults.pdp start
start-CacheIsSound = record { computed = λ key item found. cc (no_entry key item found) }
