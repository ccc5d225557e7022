-- ===== src/Grpc.antt =====
-- internal/transport/grpc/interceptors.go. The metadata of google.golang.org/grpc are a parameter; the
-- server that listens is not modelled.
pub mod Identified
use poc_dcs.Common.{String, string_eq, ◌==◌, Option, none, some, List, [], ◌∷◌, if◌then◌else◌}
use poc_dcs.Strings.{trim_space}

pub record Metadata (M : Type 0) : Type 0 where
  pub new : M
  pub get : String → M → List String
  pub set : String → String → M → M

unfoldable pub first : List String → String
first [] = ""
first (value ∷ values) = value

abbrev pub or_new : {M : Type 0} → Metadata M → Option M → M
or_new md none = md.new
or_new md (some m) = m

abbrev pub identified : {M : Type 0} → Metadata M → M → M
identified md m =
    if trim_space (first (md.get "x-request-id" m)) == ""
    then md.set "x-request-id" "grpc-no-request-id" m
    else m

-- The metadata that the handler gets, from those that came in, if any.
unfoldable pub unary_request_id_interceptor : {M : Type 0} → Metadata M → Option M → M
unfolding first trim_space
unary_request_id_interceptor md incoming = identified md (or_new md incoming)
