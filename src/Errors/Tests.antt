-- ===== src/Errors/Tests.antt =====
-- The theorems on src/error.ts at concrete values, and a run of it.
use react_native_pushy.Common.{none, some, false, ◌≡◌, refl, String}
use react_native_pushy.Json.{Value, undef, str}
use react_native_pushy.Events.{patch_failed}
use react_native_pushy.Errors.{
  an_error, a_value, read_error_code, as_update_error_code, coded_message, code_of, raw_of,
}
use react_native_pushy.Errors.Laws.{pushy_message, read_error_code-pushy_message}

abbrev no_text : Value → String
no_text v = "[object Object]"

read_error_code-pushy_message_example :
    read_error_code (
      an_error (record {
        message = pushy_message "PATCH_FAILED" "copiesCrc mismatch";
        code = undef;
        frozen = false;
      }))
    ≡ record { code = some patch_failed; message = "copiesCrc mismatch" }
read_error_code-pushy_message_example =
    read_error_code-pushy_message patch_failed "copiesCrc mismatch" false

-- An unknown prefix stays in the message.
read_error_code_unknown :
    read_error_code (a_value (str "[NO_SUCH] bad"))
    ≡ record { code = none; message = "[NO_SUCH] bad" }
unfolding read_error_code as_update_error_code coded_message code_of raw_of
read_error_code_unknown = refl
