-- ===== src/Service/Films/Listing.antt =====
-- What a list of films shows, and what it leaves behind.
use poc_dcs.Common.{Text, ◌≡◌, refl, sym, ap, ◌∙◌, List, [], ◌∷◌, map, ok}
use poc_dcs.Action.{pure, bind-ok_at, bind-keeps}
use poc_dcs.Types.{Principal, RequestContext}
use poc_dcs.Repo.Films.{FilmRecord}
use poc_dcs.Service.System.{System, on_store}
use poc_dcs.Service.Films.{
  FilmService, FilmOutput, Noted, read, output, note_result, list_films, list, nothing_noted,
}

abbrev pub heading : FilmRecord → Text × Text
heading film = (film.id, film.title)

abbrev pub shown_heading : FilmOutput → Text × Text
shown_heading film = (film.id, film.title)

module _ {R : Type 0} (service : FilmService R) (principal : Principal)
    (request : RequestContext) where
  list_films-heading :
      (films : List FilmRecord) (noted : Noted) (s : System R) (out : List FilmOutput × Noted)
      → (list_films service principal request films noted s).0 ≡ ok out
      → map shown_heading out.0 ≡ map heading films
  unfolding list_films
  list_films-heading [] noted s out h = cc
  list_films-heading (film ∷ films) noted s out h =
      let m = read service principal request film in
      let (result, _, rest) = bind-ok_at m _ s h in
      let (tail, listed, made) =
        bind-ok_at (list_films service principal request films (note_result result noted))
          (λ t. pure (output film result ∷ t.0, t.1)) (m s).1 rest in
      let same : (output film result ∷ tail.0, tail.1) ≡ out = cc made in
      ap (λ o. map shown_heading o.0) (sym same)
      ∙ ap (λ t. heading film ∷ t)
          (list_films-heading films (note_result result noted) (m s).1 tail listed)

  list_films-store :
      (films : List FilmRecord) (noted : Noted) (s : System R)
      → (list_films service principal request films noted s).1.store ≡ s.store
  unfolding list_films
  list_films-store [] noted s = refl
  list_films-store (film ∷ films) noted s =
      bind-keeps (λ t. t.store ≡ s.store) (read service principal request film) _ s refl
        (λ result _.
          bind-keeps (λ t. t.store ≡ s.store)
            (list_films service principal request films (note_result result noted)) _
            (read service principal request film s).1
            (list_films-store films (note_result result noted)
              (read service principal request film s).1)
            (λ tail _.
              list_films-store films (note_result result noted)
                (read service principal request film s).1))

  -- A list that is answered has the identifier and the title, as it is stored, of each film of the
  -- tenant, in the order of the store; no decision masks or removes a title.
  list-heading :
      (s : System R) (out : List FilmOutput)
      → (list service principal request s).0 ≡ ok out
      → (films : List FilmRecord) × ((service.repo.list_by_tenant principal.tenant_id s.store).0
          ≡ ok films)
        × (map shown_heading out ≡ map heading films)
  unfolding list
  list-heading s out h =
      let m = on_store (service.repo.list_by_tenant principal.tenant_id) in
      let (films, found, rest) = bind-ok_at m _ s h in
      let (listed, made, ended) =
        bind-ok_at (list_films service principal request films nothing_noted') _ (m s).1 rest in
      let same : listed.0 ≡ out = cc ended in
      (
        films,
        found,
        ap (map shown_heading) (sym same)
            ∙ list_films-heading films nothing_noted' (m s).1 listed made,
      )
    where
      nothing_noted' : Noted
      nothing_noted' = nothing_noted service principal request
