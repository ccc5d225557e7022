-- ===== src/Repo/Films.antt =====
-- internal/repository/memory/film_repo.go, with FilmRecord of internal/service/film_workflow.go.
pub mod Isolation
pub mod Updates
use poc_dcs.Common.{
  String, Text, bytes, text_eq, string_eq, ◌==◌, ℕ, zero, suc, ◌+◌, ◌%◌, Bool, true, false, ◌&&◌,
  List, [], ◌∷◌, ◌++◌, Result, ok, err, other, if◌then◌else◌,
}

pub record FilmRecord : Type 0 where
  pub tenant_id : String
  pub id : Text
  pub title : Text
  pub time_elapsed_ct : Text

abbrev pub Films : Type 0
Films = List FilmRecord

unfoldable pub list_by_tenant : String → Films → Films
list_by_tenant tenant [] = []
list_by_tenant tenant (film ∷ films) =
    if film.tenant_id == tenant
    then film ∷ list_by_tenant tenant films
    else list_by_tenant tenant films

abbrev pub is_named : String → Text → FilmRecord → Bool
is_named tenant id film = film.tenant_id == tenant && film.id == id

abbrev pub kept : FilmRecord → Result FilmRecord × Films → Result FilmRecord × Films
kept film (r, films) = (r, film ∷ films)

-- The loop that writes the ciphertext of the first film of that tenant and identifier.
unfoldable pub update_time_ciphertext : String → Text → Text → Films → Result FilmRecord × Films
update_time_ciphertext tenant id ct [] = (err (other "film not found"), [])
update_time_ciphertext tenant id ct (film ∷ films) =
    if is_named tenant id film
    then (ok (record film { time_elapsed_ct = ct }), record film { time_elapsed_ct = ct } ∷ films)
    else kept film (update_time_ciphertext tenant id ct films)

abbrev letters : Text
letters = bytes "abcdefghijklmnopqrstuvwxyz0123456789"

abbrev pub byte_at : ℕ → Text → ℕ
byte_at n [] = 0
byte_at zero (b ∷ s) = b
byte_at (suc n) (b ∷ s) = byte_at n s

-- `b[i] = letters[i%len(letters)]` for i from `i` on, `n` times
abbrev pub letters_from : ℕ → ℕ → Text
letters_from i zero = []
letters_from i (suc n) = byte_at (i % 36) letters ∷ letters_from (suc i) n

abbrev pub random_string : ℕ → Text
random_string n = letters_from 0 n

abbrev pub generate_id : Text
generate_id = bytes "film-" ++ random_string 8

abbrev pub fresh : String → Text → Text → FilmRecord
fresh tenant title ct = record {
  tenant_id = tenant;
  id = generate_id;
  title = title;
  time_elapsed_ct = ct;
}

unfoldable pub create : String → Text → Text → Films → FilmRecord × Films
create tenant title ct films = (fresh tenant title ct, films ++ (fresh tenant title ct ∷ []))
