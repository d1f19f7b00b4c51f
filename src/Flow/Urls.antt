-- ===== src/Flow/Urls.antt =====
-- joinUrls (src/updateFlowCore.ts): the mirrors of one artifact.
pub mod Laws
use Prim.Native.String
use Prim.Native.String.{[] as empty, ◌∷◌ as push_front}
use react_native_pushy.Common.{ℕ, ◌+◌, Char, code, String, Bool, true, false, ◌&&◌, ◌||◌, ◌==◌}
use react_native_pushy.Common.{List, map, Option, none, some, leb, beq, if◌then◌else◌}

abbrev pub text_append : String → String → String
text_append = String.◌++◌

-- `path.replace(/\/+$/, '')`: every trailing slash goes.
unfoldable pub strip_slashes : String → String
strip_slashes String.[] = ""
strip_slashes (String.◌∷◌ c s) =
    let rest = strip_slashes s in if rest == "" && beq (code c) b'/' then "" else String.◌∷◌ c rest

-- `[a-z]` of a pattern with the flag `i`.
abbrev pub is_letter : Char → Bool
is_letter c = (leb b'a' (code c) && leb (code c) b'z') || (leb b'A' (code c) && leb (code c) b'Z')

-- `[a-z0-9+.-]`.
abbrev pub is_scheme_char : Char → Bool
is_scheme_char c =
    is_letter c
    || (leb b'0' (code c) && leb (code c) b'9')
    || beq (code c) b'+'
    || beq (code c) b'.'
    || beq (code c) b'-'

unfoldable pub starts_with_slashes : String → Bool
starts_with_slashes (String.◌∷◌ a (String.◌∷◌ b t)) = beq (code a) b'/' && beq (code b) b'/'
starts_with_slashes _ = false

-- What follows the first letter: scheme characters, then "://". No scheme character is a colon, so
-- the pattern needs no backtracking.
unfoldable pub scheme_rest : String → Bool
scheme_rest String.[] = false
scheme_rest (String.◌∷◌ c s) =
    let rest = scheme_rest s in
    if is_scheme_char c then rest else beq (code c) b':' && starts_with_slashes s

-- `/^[a-z][a-z0-9+.-]*:\/\//i.test(url)`.
unfoldable pub has_scheme : String → Bool
unfolding scheme_rest starts_with_slashes
has_scheme String.[] = false
has_scheme (String.◌∷◌ c s) = is_letter c && scheme_rest s

-- One round of the `map` of `joinUrls`.
unfoldable pub join_url : String → String → String
join_url file_name path =
    let normalized_path = strip_slashes path in
    let base_url =
      if has_scheme normalized_path
      then normalized_path
      else text_append "https://" normalized_path in
    text_append base_url (text_append "/" file_name)

-- The file name is "" where the server sends none; the source returns undefined then.
unfoldable pub join_urls : List String → String → Option (List String)
join_urls paths file_name = if file_name == "" then none else some (map (join_url file_name) paths)
