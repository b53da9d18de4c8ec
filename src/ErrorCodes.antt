-- ===== src/ErrorCodes.antt =====
-- common/error/error_code.cpp and its header: the codes, their numbers and their names.
use kd.Base.{ℕ, Option, none, some, Text, lit}

pub data ErrorCode : Type 0 where
  k_ok k_unknown k_invalid_argument k_not_found k_already_exists k_permission_denied
        k_unauthenticated :
      ErrorCode
  k_internal k_unavailable k_timeout : ErrorCode

-- The values of the enumeration
unfoldable pub value_of : ErrorCode → ℕ
value_of k_ok = 0
value_of k_unknown = 1
value_of k_invalid_argument = 2
value_of k_not_found = 3
value_of k_already_exists = 4
value_of k_permission_denied = 5
value_of k_unauthenticated = 6
value_of k_internal = 7
value_of k_unavailable = 8
value_of k_timeout = 9

-- ErrorCodeToString, on any value that a variable of the type may hold
unfoldable error_code_to_string : Option ErrorCode → Text
error_code_to_string (some k_ok) = lit "OK"
error_code_to_string (some k_unknown) = lit "UNKNOWN"
error_code_to_string (some k_invalid_argument) = lit "INVALID_ARGUMENT"
error_code_to_string (some k_not_found) = lit "NOT_FOUND"
error_code_to_string (some k_already_exists) = lit "ALREADY_EXISTS"
error_code_to_string (some k_permission_denied) = lit "PERMISSION_DENIED"
error_code_to_string (some k_unauthenticated) = lit "UNAUTHENTICATED"
error_code_to_string (some k_internal) = lit "INTERNAL"
error_code_to_string (some k_unavailable) = lit "UNAVAILABLE"
error_code_to_string (some k_timeout) = lit "TIMEOUT"
error_code_to_string none = lit "UNKNOWN"
