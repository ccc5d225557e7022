-- ===== src/Repo/Films/Isolation.antt =====
-- No tenant's films are changed by another tenant's requests.
use poc_dcs.Common.{
  String, Text, if◌then◌else◌, beq_refl, string_eq, text_eq, ◌≡◌, ◌≢◌, refl, ◌∙◌, ap, List, [], ◌∷◌,
  ◌++◌, arith, eq_iff,
}
use poc_dcs.Repo.Films.{Films, list_by_tenant, update_time_ciphertext, create, fresh}

-- What a tenant asks of the repository that changes it.
pub data Change : Type 0 where
  creating : (tenant : String) → (title ct : Text) → Change
  updating : (tenant : String) → (id ct : Text) → Change

abbrev pub owner : Change → String
owner (creating tenant title ct) = tenant
owner (updating tenant id ct) = tenant

unfoldable pub change : Change → Films → Films
unfolding create update_time_ciphertext
change (creating tenant title ct) films = (create tenant title ct films).1
change (updating tenant id ct) films = (update_time_ciphertext tenant id ct films).1

unfoldable pub run : List Change → Films → Films
unfolding change
run [] films = films
run (c ∷ cs) films = run cs (change c films)

pub data AreOf (tenant : String) : List Change → Type 0 where
  no_change : AreOf tenant []
  another :
      {c : Change} {cs : List Change} → owner c ≢ tenant → AreOf tenant cs → AreOf tenant (c ∷ cs)

pub list-append :
    (tenant : String) (xs ys : Films)
    → list_by_tenant tenant (xs ++ ys) ≡ list_by_tenant tenant xs ++ list_by_tenant tenant ys
unfolding list_by_tenant
list-append tenant [] ys = refl
list-append tenant (film ∷ xs) ys = ground (arith, list-append tenant xs ys)

-- A film that is created is the last of those its tenant lists, with the title and the ciphertext
-- given.
pub list-create :
    (tenant : String) (title ct : Text) (films : Films)
    → list_by_tenant tenant (create tenant title ct films).1
      ≡ list_by_tenant tenant films ++ (fresh tenant title ct ∷ [])
unfolding create list_by_tenant
list-create tenant title ct films =
    list-append tenant films (fresh tenant title ct ∷ [])
    ∙ ap (λ b. list_by_tenant tenant films ++ (if b then fresh tenant title ct ∷ [] else []))
        (beq_refl tenant)

list-create_other :
    (tenant owner : String) (title ct : Text) (films : Films)
    → owner ≢ tenant
    → list_by_tenant tenant (create owner title ct films).1 ≡ list_by_tenant tenant films
unfolding create list_by_tenant
list-create_other tenant owner title ct [] h = ground (arith, eq_iff owner tenant)
list-create_other tenant owner title ct (film ∷ films) h =
    ground (arith, list-create_other tenant owner title ct films h)

list-update_other :
    (tenant owner : String) (id ct : Text) (films : Films)
    → owner ≢ tenant
    → list_by_tenant tenant (update_time_ciphertext owner id ct films).1
      ≡ list_by_tenant tenant films
unfolding update_time_ciphertext list_by_tenant
list-update_other tenant owner id ct [] h = refl
list-update_other tenant owner id ct (film ∷ films) h = ground (
  arith,
  eq_iff film.tenant_id owner,
  eq_iff film.tenant_id tenant,
  list-update_other tenant owner id ct films h,
)

-- Whatever creations and updates the other tenants make, and in whatever order, a tenant lists the
-- same films.
pub list-run :
    (tenant : String) (cs : List Change) (films : Films)
    → AreOf tenant cs
    → list_by_tenant tenant (run cs films) ≡ list_by_tenant tenant films
unfolding run change
list-run tenant [] films h = refl
list-run tenant (creating owner title ct ∷ cs) films (another apart rest) =
    list-run tenant cs (create owner title ct films).1 rest
    ∙ list-create_other tenant owner title ct films apart
list-run tenant (updating owner id ct ∷ cs) films (another apart rest) =
    list-run tenant cs (update_time_ciphertext owner id ct films).1 rest
    ∙ list-update_other tenant owner id ct films apart
