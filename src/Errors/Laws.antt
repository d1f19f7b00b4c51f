-- ===== src/Errors/Laws.antt =====
-- Coded messages and the codes of emitted errors (src/error.ts).
use react_native_pushy.Common.Text.{text_append}
use text.Mathlib.TextLemmas.{nil-append, cons-append}
use react_native_pushy.Common.{Char, String, Bool, true, false, ◌&&◌, ◌==◌}
use react_native_pushy.Common.{some, ◌≡◌, refl, arith}
use react_native_pushy.Json.{Value, undef}
use react_native_pushy.Events.{UpdateErrorCode, code_text, known_code-code_text, module_not_loaded}
use react_native_pushy.Errors.{
  as_update_error_code, is_code_char, close_group, match_group, coded_message, Thrown, an_error,
  an_object, a_value, read_error_code, to_update_error, raw_of, code_of, or_code, adopt, wrap_value,
}

-- The message of a Harmony PushyError: `[${code}] ${message}` (ErrorCodes.ts).
unfoldable pub pushy_message : String → String → String
pushy_message c message = text_append "[" (text_append c (text_append "] " message))

abbrev pub all_code_chars : String → Bool
all_code_chars String.[] = true
all_code_chars (String.◌∷◌ c s) = is_code_char c && all_code_chars s

close_group-append :
    (message : String)
    → match_group (text_append "] " message) ≡ some (record { group = ""; rest = message })
unfolding match_group close_group
close_group-append message = rw (cons-append, cons-append, nil-append) refl

match_group-cons :
    (c : Char) (s : String) (g message : String)
    → is_code_char c ≡ true
    → match_group s ≡ some (record { group = g; rest = message })
    → match_group (String.◌∷◌ c s) ≡ some (record { group = String.◌∷◌ c g; rest = message })
unfolding match_group
match_group-cons c s g message h ih = rw (h, ih) refl

match_group-append :
    (g message : String)
    → all_code_chars g ≡ true
    → match_group (text_append g (text_append "] " message))
      ≡ some (record { group = g; rest = message })
match_group-append String.[] message h = rw nil-append (close_group-append message)
match_group-append (String.◌∷◌ c g) message h =
    rw cons-append
      (match_group-cons c _ g message (ground arith) (match_group-append g message (ground arith)))

coded_message-pushy_message :
    (g message : String)
    → all_code_chars g ≡ true
    → (g == "") ≡ false
    → coded_message (pushy_message g message) ≡ some (record { group = g; rest = message })
unfolding coded_message pushy_message
coded_message-pushy_message g message h full =
    rw (cons-append, nil-append, match_group-append g message h, full) refl

all_code_chars-code_text :
    (c : UpdateErrorCode) → (all_code_chars (code_text c) ≡ true) × ((code_text c == "") ≡ false)
all_code_chars-code_text module_not_loaded = (refl, refl)
all_code_chars-code_text _ = (refl, refl)

coded_message-code_text :
    (c : UpdateErrorCode) (message : String)
    → coded_message (pushy_message (code_text c) message)
      ≡ some (record { group = code_text c; rest = message })
coded_message-code_text c message =
    coded_message-pushy_message (code_text c) message (all_code_chars-code_text c).0
      (all_code_chars-code_text c).1

-- Every code and message that Harmony writes into one text, `[CODE] message`, is read back from an
-- error that lost its `code` property.
pub read_error_code-pushy_message :
    (c : UpdateErrorCode) (message : String) (frozen : Bool)
    → read_error_code (
        an_error
          (record { message = pushy_message (code_text c) message; code = undef; frozen = frozen }))
      ≡ record { code = some c; message = message }
unfolding read_error_code raw_of code_of as_update_error_code
read_error_code-pushy_message c message frozen =
    rw (coded_message-code_text c message, known_code-code_text c) refl

-- Whatever is thrown, the emitted error has the stable code that is read from it, or the caller's
-- where there is none.
code-to_update_error :
    (to_text : Value → String) (e : Thrown) (fallback : UpdateErrorCode)
    → (to_update_error to_text e fallback).code ≡ or_code (read_error_code e).code fallback
unfolding to_update_error read_error_code adopt wrap_value code_of
code-to_update_error to_text (an_error e) fallback = ground arith
code-to_update_error to_text (an_object fs) fallback = refl
code-to_update_error to_text (a_value v) fallback = refl

-- A Harmony error reaches the client with its code and without the prefix, whatever code the caller
-- would use; one that rejects the write is wrapped in a new error.
to_update_error-pushy_message :
    (to_text : Value → String) (c fallback : UpdateErrorCode) (message : String) (frozen : Bool)
    → to_update_error to_text
        (an_error
          (record { message = pushy_message (code_text c) message; code = undef; frozen = frozen }))
        fallback
      ≡ record { code = c; message = message; wraps = frozen }
unfolding to_update_error adopt as_update_error_code
to_update_error-pushy_message to_text c fallback message true =
    rw (read_error_code-pushy_message c message true) refl
to_update_error-pushy_message to_text c fallback message false =
    rw (read_error_code-pushy_message c message false) refl
