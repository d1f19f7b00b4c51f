-- ===== src/Errors.antt =====
-- src/error.ts: the stable code of a thrown value, and the error object that the client emits.
pub mod Laws
mod Tests
use Prim.Native.String
use react_native_pushy.Common.{ℕ, Char, code, String, Bool, true, false, ◌&&◌, ◌||◌, ◌==◌, leb, beq}
use react_native_pushy.Common.{Option, none, some, if◌then◌else◌}
use react_native_pushy.Json.{Value, undef, null, bool, num, str, arr, obj, Fields, get}
use react_native_pushy.Events.{UpdateErrorCode, code_text, known_code}

-- `asUpdateErrorCode`: only a text in the stable set counts.
unfoldable pub as_update_error_code : Value → Option UpdateErrorCode
unfolding known_code
as_update_error_code (str s) = known_code s
as_update_error_code value = none

-- `[A-Z_]`.
abbrev pub is_code_char : Char → Bool
is_code_char c = (leb b'A' (code c) && leb (code c) b'Z') || beq (code c) b'_'

-- What a match of CODED_MESSAGE leaves: the group, and the text behind the match.
pub record CodedMessage : Type 0 where
  pub group : String
  pub rest : String

abbrev pub push : Char → Option CodedMessage → Option CodedMessage
push c none = none
push c (some m) = some (record m { group = String.◌∷◌ c m.group })

-- "] " closes the group.
unfoldable pub close_group : String → Option CodedMessage
close_group (String.◌∷◌ a (String.◌∷◌ b s)) =
    if beq (code a) b']' && beq (code b) b' ' then some (record { group = ""; rest = s }) else none
close_group s = none

unfoldable pub match_group : String → Option CodedMessage
match_group String.[] = none
match_group (String.◌∷◌ c s) =
    let longer = match_group s in
    if is_code_char c then push c longer else close_group (String.◌∷◌ c s)

abbrev pub non_empty : Option CodedMessage → Option CodedMessage
non_empty none = none
non_empty (some m) = if m.group == "" then none else some m

-- `/^\[([A-Z_]+)\] /`: the group takes every code character, and none of these is "]".
unfoldable pub coded_message : String → Option CodedMessage
unfolding match_group close_group
coded_message String.[] = none
coded_message (String.◌∷◌ c s) = if beq (code c) b'[' then non_empty (match_group s) else none

-- A thrown value: an Error, which may reject a write to it; another object; or anything else.
pub record ErrorObject : Type 0 where
  pub message : String
  pub code : Value
  pub frozen : Bool

pub data Thrown : Type 0 where
  an_error : ErrorObject → Thrown
  an_object : Fields → Thrown
  a_value : Value → Thrown

abbrev pub raw_message : Value → String
raw_message (str s) = s
raw_message _ = ""

-- The message and the code that `readErrorCode` looks at.
unfoldable pub raw_of : Thrown → String
raw_of (an_error e) = e.message
raw_of (an_object fs) = raw_message (get "message" fs)
raw_of (a_value v) = raw_message v

unfoldable pub code_of : Thrown → Value
code_of (an_error e) = e.code
code_of (an_object fs) = get "code" fs
code_of (a_value v) = undef

pub record ReadErrorCode : Type 0 where
  pub code : Option UpdateErrorCode
  pub message : String

abbrev pub or_else : Option UpdateErrorCode → Option UpdateErrorCode → Option UpdateErrorCode
or_else none d = d
or_else (some c) d = some c

abbrev pub prefixed_code : Option CodedMessage → Option UpdateErrorCode
prefixed_code none = none
prefixed_code (some m) = known_code m.group

abbrev pub stripped : Option UpdateErrorCode → Option CodedMessage → String → String
stripped (some c) (some m) raw = m.rest
stripped _ _ raw = raw

unfoldable pub read_error_code : Thrown → ReadErrorCode
read_error_code e =
    let raw = raw_of e in
    let found = coded_message raw in
    let prefixed = prefixed_code found in
    record {
      code = or_else (as_update_error_code (code_of e)) prefixed;
      message = stripped prefixed found raw;
    }

-- An error as the client emits it: `wraps` is set where it is a new object around the thrown one.
pub record UpdateError : Type 0 where
  pub code : UpdateErrorCode
  pub message : String
  pub wraps : Bool

abbrev pub or_code : Option UpdateErrorCode → UpdateErrorCode → UpdateErrorCode
or_code none d = d
or_code (some c) d = c

-- `String(e ?? code)`, for a value that is no text; the texts of other values are a parameter.
abbrev pub shown : (Value → String) → UpdateErrorCode → Thrown → String
shown to_text fallback (a_value undef) = code_text fallback
shown to_text fallback (a_value null) = code_text fallback
shown to_text fallback (a_value v) = to_text v
shown to_text fallback (an_object fs) = to_text (obj fs)
shown to_text fallback (an_error e) = e.message

abbrev pub message_of : ReadErrorCode → Option UpdateErrorCode → String → String
message_of parsed none other = other
message_of parsed (some c) other = parsed.message

-- An Error without a known code gets one, and loses the prefix that the code came from; one that
-- rejects the write is wrapped, with the message read from it.
unfoldable pub adopt : ErrorObject → UpdateErrorCode → UpdateError
adopt e fallback =
    let parsed = read_error_code (an_error e) in
    record {
      code = or_code parsed.code fallback;
      message = if e.frozen then parsed.message else message_of parsed parsed.code e.message;
      wraps = e.frozen;
    }

abbrev pub keep_or_adopt : Option UpdateErrorCode → ErrorObject → UpdateErrorCode → UpdateError
keep_or_adopt (some c) e fallback = record { code = c; message = e.message; wraps = false }
keep_or_adopt none e fallback = adopt e fallback

unfoldable pub wrap_value : (Value → String) → Thrown → UpdateErrorCode → UpdateError
wrap_value to_text e fallback =
    let parsed = read_error_code e in
    record {
      code = or_code parsed.code fallback;
      message = message_of parsed parsed.code (shown to_text fallback e);
      wraps = true;
    }

unfoldable pub to_update_error : (Value → String) → Thrown → UpdateErrorCode → UpdateError
to_update_error to_text (an_error e) fallback =
    keep_or_adopt (as_update_error_code e.code) e fallback
to_update_error to_text (an_object fs) fallback = wrap_value to_text (an_object fs) fallback
to_update_error to_text (a_value v) fallback = wrap_value to_text (a_value v) fallback
