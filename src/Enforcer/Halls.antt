-- ===== src/Enforcer/Halls.antt =====
-- What a reader of a hall is shown: internal/dcs/enforcer/hall.go over the default matrix.
use poc_dcs.Common.{
  String, Text, subst, false, string_eq, ◌≡◌, refl, [], Option, some, Map, lookup, arith,
}
use poc_dcs.Types.{FieldAction, mask_after_decrypt, Decision, Principal, RequestContext}
use poc_dcs.Pep.Mask.{mask_uuid}
use poc_dcs.Action.{bind-ok_at, pure}
use poc_dcs.World.{World}
use poc_dcs.Config.{PdpConfig}
use poc_dcs.Types.{PolicyInput}
use poc_dcs.Pdp.{decide}
use poc_dcs.Pdp.Allows.{decide-field_actions_of_denied}
use poc_dcs.Common.{ok}
use poc_dcs.Enforcer.{
  Parts, decide_on, asking, enforce_hall_read, HallReadInput, HallReadResult, shape_hall,
  hall_field,
}

-- The text that is shown of an identifier under an action.
abbrev pub shown : Option FieldAction → Text → Text
shown (some mask_after_decrypt) id = mask_uuid id
shown _ id = id

hall_field-shown :
    (actions : Map String FieldAction) (field : String) (id : Text)
    → (hall_field actions field id).0 ≡ shown (lookup field actions) id
hall_field-shown actions field id = ground (arith, shown)

-- The rule that `enforce_hall_read` follows, for a set of field actions.
abbrev pub Shows : Map String FieldAction → HallReadInput → HallReadResult → Type 0
Shows actions hall result =
    (result.name ≡ some hall.name)
    × (result.owner_user_id ≡ shown (lookup "owner_user_id" actions) hall.owner_user_id)
    × (result.current_film_id ≡ shown (lookup "current_film_id" actions) hall.current_film_id)

shape_hall-Shows :
    (actions : Map String FieldAction) (hall : HallReadInput)
    → Shows actions hall (shape_hall actions hall)
unfolding shape_hall
shape_hall-Shows actions hall = (
  refl,
  hall_field-shown actions "owner_user_id" hall.owner_user_id,
  hall_field-shown actions "current_film_id" hall.current_film_id,
)

-- A hall that is read shows its name, and each identifier masked exactly where the decision's action
-- for it is to mask; whether the decision allows the read plays no part.
pub enforce_hall_read-Shows :
    (e : Parts) (principal : Principal) (request : RequestContext) (hall : HallReadInput)
    (w : World) (result : HallReadResult)
    → (enforce_hall_read e principal request hall w).0 ≡ ok result
    → (d : Decision) × ((decide_on e
          (asking principal request "hall.read" "hall" hall.hall_id hall.owner_user_id [])
          w).0
        ≡ ok d)
      × Shows d.field_actions hall result
unfolding enforce_hall_read
enforce_hall_read-Shows e principal request hall w result h =
    let (d, decided, made) =
      bind-ok_at
        (decide_on e
          (asking principal request "hall.read" "hall" hall.hall_id hall.owner_user_id []))
        (λ d. pure (shape_hall d.field_actions hall)) w h in
    let same : shape_hall d.field_actions hall ≡ result = cc made in
    (d, decided, subst (Shows d.field_actions hall) same (shape_hall-Shows d.field_actions hall))

-- Where the rules refuse the read, the hall is shaped with both identifiers in clear.
hall_read_of_refused :
    (cfg : PdpConfig) (input : PolicyInput) (hall : HallReadInput)
    → (decide cfg input).allow ≡ false
    → ((shape_hall (decide cfg input).field_actions hall).owner_user_id ≡ hall.owner_user_id)
      × ((shape_hall (decide cfg input).field_actions hall).current_film_id ≡ hall.current_film_id)
unfolding shape_hall lookup
hall_read_of_refused cfg input hall h = rw (decide-field_actions_of_denied cfg input h) (refl, refl)
