-- ===== src/Http/Security.antt =====
-- internal/transport/http/security_handler.go.
pub mod Changing
use poc_dcs.Common.{
  String, ℤ, Bool, true, false, not, ◌&&◌, ◌||◌, Option, none, some, [], Result, ok, err,
  is_negative, string_eq, text_eq, ◌==◌, if◌then◌else◌,
}
use poc_dcs.Strings.{trim_space, to_lower}
use poc_dcs.Runtime
use poc_dcs.World.{World, clear_all}
use poc_dcs.Auth.Login.{AuthService, LoginRequest, LoginResponse, login}
use poc_dcs.Service.System.{System}
use poc_dcs.Http.Exchange.{Request, Response, Handler, respond, empty, detail, settings, logged_in}
use poc_dcs.Http.Server.{Server, SettingsUpdate, is_invalid_credentials}
use poc_dcs.Http.Films.{trim}

module _ {R : Type 0} (server : Server R) where
  abbrev pub answer_login : Result LoginResponse → System R → Response × System R
  answer_login (ok out) s = respond 200 (logged_in out) s
  answer_login (err e) s =
      if is_invalid_credentials e
      then respond 401 (detail "invalid credentials") s
      else respond 500 (detail "internal server error") s

  abbrev pub login_decoded : AuthService → Option LoginRequest → Handler R
  login_decoded auth none claims r s = respond 400 (detail "invalid JSON body") s
  login_decoded auth (some req) claims r s =
      if trim_space req.username == ""
      then respond 400 (detail "username is required") s
      else if trim req.password == []
      then respond 400 (detail "password is required") s
      else answer_login (login auth req (server.clock s.world)) s

  abbrev pub login_from : Option AuthService → Handler R
  login_from none claims r s = respond 503 (detail "authentication service unavailable") s
  login_from (some auth) claims r s = login_decoded auth (server.decoders.login r.body) claims r s

  unfoldable pub handle_login : Handler R
  unfolding trim_space trim
  handle_login claims r s =
      if not (r.method == "POST") then respond 405 empty s else login_from server.auth claims r s

  abbrev pub settings_of : System R → Response × System R
  settings_of s = respond 200 (settings s.world.settings.dcs_mode s.world.settings.cache_level) s

  abbrev pub is_mode : Option String → Bool
  is_mode none = true
  is_mode (some raw) = let mode = to_lower (trim_space raw) in mode == "on" || mode == "off"

  abbrev pub is_level : Option ℤ → Bool
  is_level none = true
  is_level (some level) = not (is_negative level)

  -- `s.runtime.Set(…); s.cache.ClearAll()`
  abbrev pub changed : SettingsUpdate → System R → System R
  changed update s = record s {
    world = record s.world {
      settings = Runtime.set s.world.settings update.dcs_mode update.cache_level;
      caches = clear_all s.world.caches;
    };
  }

  abbrev pub update_decoded : Option SettingsUpdate → System R → Response × System R
  update_decoded none s = respond 400 (detail "invalid JSON body") s
  update_decoded (some update) s =
      if not (is_mode update.dcs_mode)
      then respond 400 (detail "dcs_mode must be 'on' or 'off'") s
      else if not (is_level update.cache_level)
      then respond 400 (detail "cache_level must be >= 0") s
      else settings_of (changed update s)

  unfoldable pub handle_admin_settings : Handler R
  unfolding trim_space to_lower
  handle_admin_settings claims r s =
      if r.method == "GET"
      then settings_of s
      else if r.method == "PATCH"
      then update_decoded (server.decoders.settings r.body) s
      else respond 405 empty s
