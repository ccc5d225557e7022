-- ===== src/Bootstrap.antt =====
-- internal/bootstrap/http.go: how a process is put together. The client of Vault, the loading of the
-- policy file, the database and the digests are parameters.
pub mod Start
pub mod Memory
pub mod Database
use poc_dcs.Common.{
  String, Text, bytes, ℕ, pos, Bool, not, ◌&&◌, Option, none, some, List, [], ◌∷◌, Map, Result, ok,
  err, string_eq, text_eq, ◌==◌, if◌then◌else◌,
}
use poc_dcs.Types.{
  classification_public, classification_internal, classification_sensitive, classification_pii,
}
use poc_dcs.Runtime
use poc_dcs.Config.{DcsConfig, defaults}
use poc_dcs.Environment.{Config}
use poc_dcs.World.{Oracle, World, Options, ClassificationMap, new_manager}
use poc_dcs.Pdp.{Digests}
use poc_dcs.Pip
use poc_dcs.Pip.{ClassificationStore, FieldClassification, static_store, db_store}
use poc_dcs.Kms.{CryptoService, Base64, local_client}
use poc_dcs.Enforcer.{Parts}
use poc_dcs.Auth.Jwt.{JwtLibrary}
use poc_dcs.Http.Server.{Decoders}
use poc_dcs.Repo.Films.{FilmRecord}
use poc_dcs.Repo.Halls.{Hall, HallRepository, new_hall_repository}

-- `vault` is `kms.NewVaultTransitClient`, `load` is `dcsconfig.Load`, and `classifications` the
-- repository of the database, if there is one; an error is `none`.
pub record Outside : Type 0 where
  pub map_order : List String → List String
  pub new_uuid : ℕ → Text
  pub decoders : Decoders
  pub library : JwtLibrary
  pub clock : World → ℕ
  pub oracle : Oracle
  pub digests : Digests
  pub hmac : Text → Text → Text
  pub visit : World → Map String Text → Map String Text
  pub base64 : Base64
  pub vault : Config → Option CryptoService
  pub load : String → Option DcsConfig
  pub classifications : Option (String → World → Result (List FieldClassification))

abbrev pub by_resource : Map String ClassificationMap
by_resource =
    ("film", ("title", classification_public) ∷ ("time_elapsed", classification_sensitive) ∷ [])
    ∷ (
      "hall",
      ("name", classification_public)
          ∷ ("owner_user_id", classification_internal)
          ∷ ("current_film_id", classification_internal)
          ∷ [],
    )
    ∷ (
      "spectator",
      ("name", classification_pii)
          ∷ ("age", classification_sensitive)
          ∷ ("external_id", classification_pii)
          ∷ [],
    )
    ∷ []

module _ (o : Outside) (cfg : Config) where
  abbrev pub loaded_or_defaults : Option DcsConfig → DcsConfig
  loaded_or_defaults none = defaults
  loaded_or_defaults (some loaded) = loaded

  unfoldable pub setup_dcs_config : DcsConfig
  setup_dcs_config =
      if not (cfg.dcs_config_path == "")
      then loaded_or_defaults (o.load cfg.dcs_config_path)
      else defaults

  abbrev pub cache_options : Options
  cache_options = record {
    max_entries = cfg.cache_max_entries;
    classification_ttl = cfg.cache_ttl_classif;
    pdp_ttl = cfg.cache_ttl_pdp;
    kms_ttl = cfg.cache_ttl_kms;
    pepper_ttl = cfg.cache_ttl_pepper;
  }

  -- The settings and the caches of a new process.
  unfoldable pub setup_world : World
  unfolding new_manager
  setup_world = record {
    settings = Runtime.new cfg.dcs_mode cfg.cache_level;
    caches = new_manager cache_options;
    tick = 0;
  }

  abbrev pub vault_or_local : Option CryptoService → CryptoService
  vault_or_local none = local_client o.base64
  vault_or_local (some client) = client

  unfoldable pub setup_kms : CryptoService
  unfolding local_client
  setup_kms =
      if not (cfg.vault_addr == "") && not (cfg.vault_token == "")
      then vault_or_local (o.vault cfg)
      else local_client o.base64

  abbrev pub store_over :
      Option (String → World → Result (List FieldClassification)) → ClassificationStore
  store_over none = static_store by_resource
  store_over (some repo) = db_store repo (some (static_store by_resource))

  unfoldable pub setup_classification_store : ClassificationStore
  unfolding static_store db_store
  setup_classification_store = store_over o.classifications

  abbrev pub setup_pip : Pip.Config
  setup_pip = record {
    env = cfg.env;
    channel = setup_dcs_config.pip.channel;
    purpose = setup_dcs_config.pip.purpose;
    device_trust = setup_dcs_config.pip.device_trust;
    client_ip_header = setup_dcs_config.pip.client_ip_header;
  }

  unfoldable pub setup_dcs : Parts
  unfolding setup_dcs_config setup_kms setup_classification_store
  setup_dcs = record {
    oracle = o.oracle;
    digests = o.digests;
    pdp_config = setup_dcs_config.pdp;
    pip_config = setup_pip;
    store = setup_classification_store;
    kms = setup_kms;
    pepper_path = cfg.vault_kv_pepper_path;
    hmac = o.hmac;
    visit = o.visit;
  }

-- `seedCT, _ := …`: an error leaves the empty string.
abbrev pub seed_of : Result Text → Text
seed_of (err e) = bytes "120"
seed_of (ok ct) = if ct == [] then bytes "120" else ct

-- The stores in memory of a process without a database.
abbrev pub seed_films : CryptoService → World → List FilmRecord
seed_films kms w =
    record {
      tenant_id = "t1";
      id = bytes "film-1";
      title = bytes "Interstellar";
      time_elapsed_ct = seed_of (kms.encrypt (bytes "120") w).0;
    }
    ∷ []

abbrev pub seed_halls : HallRepository
seed_halls = new_hall_repository (
    record {
      tenant_id = "t1";
      id = bytes "hall-1";
      name = bytes "Hall A";
      owner_user_id = bytes "u-admin";
      current_film_id = bytes "film-1";
    }
    ∷ [])
