-- ===== src/Grpc/Identified.antt =====
-- The handler of a gRPC request always gets a request identifier.
use poc_dcs.Common.{
  String, string_eq, ◌==◌, ◌≡◌, refl, Option, [], ◌∷◌, Bool-cases, inl, inr, ◌⊎◌, false, true,
}
use poc_dcs.Strings.{trim_space}
use poc_dcs.Grpc.{Metadata, unary_request_id_interceptor, or_new, first}

-- Where a value that is set is the one that is got: the first request identifier that the handler
-- gets is not blank, and the metadata are handed on as they came or their first one was blank.
interceptor_identifies :
    {M : Type 0} (md : Metadata M) (incoming : Option M)
    → ((key value : String) (m : M) → md.get key (md.set key value m) ≡ value ∷ [])
    → ((trim_space (first (md.get "x-request-id" (unary_request_id_interceptor md incoming))) == "")
        ≡ false)
      × ((unary_request_id_interceptor md incoming ≡ or_new md incoming)
          ⊎ ((trim_space (first (md.get "x-request-id" (or_new md incoming))) == "") ≡ true))
unfolding unary_request_id_interceptor first trim_space
interceptor_identifies md incoming got =
    let m = or_new md incoming in
    elim (Bool-cases (trim_space (first (md.get "x-request-id" m)) == "")) [
      | inl blank ↦ (rw (blank, got "x-request-id" "grpc-no-request-id" m) refl, inr blank)
      | inr given ↦ (rw given given, inl (rw given refl))
    ]
