-- ===== src/Http/Parameters.antt =====
-- internal/transport/http/parse_helper.go and the parsing at the end of perf_handler.go: the parameters
-- of a query.
pub mod Bounds
use poc_dcs.Common.{
  String, Text, bytes, ℕ, ℤ, pos, negsuc, Bool, true, false, ◌||◌, ltb_ℤ, Option, none, some,
  string_eq, ◌==◌, if◌then◌else◌, is_negative,
}
use poc_dcs.Strings.{trim_space, to_lower}
use poc_dcs.Strconv.{atoi}
use poc_dcs.Http.Exchange.{Request}

-- `strconv.Atoi` with a range; an error of either is `none`.
abbrev pub between : ℤ → ℤ → Option ℤ → Option ℤ
between low high none = none
between low high (some val) = if ltb_ℤ val low || ltb_ℤ high val then none else some val

unfoldable pub parse_limit : Request → Option ℤ
unfolding trim_space atoi
parse_limit r =
    let raw = trim_space (r.query "limit") in
    if raw == "" then some (pos 200) else between (pos 1) (pos 1000) (atoi (bytes raw))

-- An empty parameter is a nil pointer.
abbrev pub parse_text_param : Request → String → Option String
parse_text_param r key = let raw = trim_space (r.query key) in if raw == "" then none else some raw

unfoldable pub parse_action_param : Request → Option String
unfolding trim_space
parse_action_param r = parse_text_param r "action"

unfoldable pub parse_source_param : Request → Option String
unfolding trim_space
parse_source_param r = parse_text_param r "source"

abbrev pub bool_of : String → Option Bool
bool_of raw =
    if raw == "1" || raw == "true" || raw == "yes" || raw == "on"
    then some true
    else if raw == "0" || raw == "false" || raw == "no" || raw == "off"
    then some false
    else none

unfoldable pub parse_bool_param : Request → String → Option Bool
unfolding trim_space to_lower
parse_bool_param r key =
    let raw = trim_space (r.query key) in if raw == "" then some false else bool_of (to_lower raw)

-- An integer that is not negative.
abbrev pub not_negative : Option ℤ → Option ℤ
not_negative none = none
not_negative (some n) = if is_negative n then none else some n
