-- ===== src/Relay/Config.antt =====
-- The relay's address (packages/relay/src/relay-config.ts). A thrown error is its message.
use Prim.Native.Char.{code}
use privacy_layer_confidenti.Base.{
  String, Bool, Option, none, some, List, [], ◌∷◌, ◌++◌, ◌==◌, if◌then◌else◌, is_some,
}
use privacy_layer_confidenti.Js.Text.{same_code, trim, split, without_empty, join}

-- `.replace(/\/$/u, '')`
unfoldable pub drop_last_slash : String → String
drop_last_slash String.[] = ""
drop_last_slash (String.◌∷◌ c String.[]) = if same_code (code c) b'/' then "" else String.◌∷◌ c ""
drop_last_slash (String.◌∷◌ c (String.◌∷◌ d s)) = String.◌∷◌ c (drop_last_slash (String.◌∷◌ d s))

abbrev non_empty : String → Option String
non_empty trimmed = if trimmed == "" then none else some trimmed

unfoldable pub resolve_relay_origin : Option String → Option String
unfolding drop_last_slash
resolve_relay_origin none = none
resolve_relay_origin (some origin) = non_empty (drop_last_slash (trim origin))

unfoldable pub is_relay_configured : Option (Option String) → Bool
unfolding resolve_relay_origin
is_relay_configured none = is_some (resolve_relay_origin none)
is_relay_configured (some origin) = is_some (resolve_relay_origin origin)

unfoldable pub require_relay_origin : Option String → Option String
require_relay_origin origin = resolve_relay_origin origin

abbrev segment_parts : List String → List String
segment_parts [] = []
segment_parts (s ∷ ss) = without_empty (split b'/' s) ++ segment_parts ss

unfoldable pub join_relay_api_url : String → List String → Option String
join_relay_api_url origin path_segments = elim (require_relay_origin (some origin)) [
  | none ↦ none
  | some base ↦ some (join "/" (base ∷ segment_parts ("relay-requests" ∷ path_segments)))
]
