-- ===== src/Repo/Films/Updates.antt =====
-- Which film an update changes.
use poc_dcs.Common.{
  String, Text, text_eq, string_eq, ◌==◌, ◌≡◌, refl, ◌∙◌, ap, [], ◌∷◌, ◌++◌, arith, ok, err, Option,
  none, some, Result, other, if◌then◌else◌,
}
use poc_dcs.Repo.Films.Isolation.{list-create}
use poc_dcs.Repo.Films.{
  FilmRecord, Films, list_by_tenant, update_time_ciphertext, create, fresh, generate_id, kept,
}

-- The first film with this identifier.
unfoldable pub find : Text → Films → Option FilmRecord
find id [] = none
find id (film ∷ films) = if film.id == id then some film else find id films

-- The films with the ciphertext of the first of this identifier replaced.
unfoldable pub overwrite : Text → Text → Films → Films
overwrite id ct [] = []
overwrite id ct (film ∷ films) =
    if film.id == id
    then record film { time_elapsed_ct = ct } ∷ films
    else film ∷ overwrite id ct films

abbrev pub answer : Text → Option FilmRecord → Result FilmRecord
answer ct none = err (other "film not found")
answer ct (some film) = ok (record film { time_elapsed_ct = ct })

update-kept :
    (film : FilmRecord) (r : Result FilmRecord × Films)
    → ((kept film r).0 ≡ r.0) × ((kept film r).1 ≡ film ∷ r.1)
update-kept film r = (refl, refl)

-- An update answers with the first film of that identifier that the tenant lists, its ciphertext
-- replaced, or with an error if there is none; the tenant then lists the same films, with that film
-- overwritten.
update-list :
    (tenant : String) (id ct : Text) (films : Films)
    → ((update_time_ciphertext tenant id ct films).0
        ≡ answer ct (find id (list_by_tenant tenant films)))
      × (list_by_tenant tenant (update_time_ciphertext tenant id ct films).1
          ≡ overwrite id ct (list_by_tenant tenant films))
unfolding update_time_ciphertext list_by_tenant find overwrite
update-list tenant id ct [] = (refl, refl)
update-list tenant id ct (film ∷ films) = ground (arith, update-list tenant id ct films)

found-append :
    (id ct : Text) (xs ys : Films) (film : FilmRecord)
    → find id xs ≡ some film
    → overwrite id ct (xs ++ ys) ≡ overwrite id ct xs ++ ys
unfolding find overwrite
found-append id ct [] ys film h = cc
found-append id ct (x ∷ xs) ys film h = ground (arith, found-append id ct xs ys film)

-- A second film of the tenant gets the identifier of the first, so that an update of it overwrites
-- the first instead, and the film just created keeps its ciphertext.
create-shadowed :
    (tenant : String) (title ct ct' : Text) (films : Films) (film : FilmRecord)
    → find generate_id (list_by_tenant tenant films) ≡ some film
    → list_by_tenant tenant
        (update_time_ciphertext tenant generate_id ct' (create tenant title ct films).1).1
      ≡ overwrite generate_id ct' (list_by_tenant tenant films) ++ (fresh tenant title ct ∷ [])
unfolding create
create-shadowed tenant title ct ct' films film h =
    (update-list tenant generate_id ct' (films ++ (fresh tenant title ct ∷ []))).1
    ∙ ap (overwrite generate_id ct') (list-create tenant title ct films)
    ∙ found-append generate_id ct' (list_by_tenant tenant films) (fresh tenant title ct ∷ []) film h
