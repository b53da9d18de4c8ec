-- ===== src/Api.antt =====
-- The messages of api/proto (config, user, game), and gRPC's status codes.
use kd.Base.{ℕ, Bool, true, false, Text, ℤ, [], pos}

pub record ConfigEntry : Type 0 where
  pub namespace_name : Text
  pub key : Text
  pub value : Text
  pub version : ℤ
  pub environment : Text

-- a message with no field set
abbrev pub no_entry : ConfigEntry
no_entry = record { namespace_name = []; key = []; value = []; version = pos 0; environment = [] }

pub record UserProfile : Type 0 where
  pub user_id : Text
  pub nickname : Text
  pub avatar : Text
  pub level : ℤ
  pub created_at : ℤ

abbrev pub no_profile : UserProfile
no_profile = record { user_id = []; nickname = []; avatar = []; level = pos 0; created_at = pos 0 }

pub record GetConfigRequest : Type 0 where
  pub namespace_name : Text
  pub key : Text

pub record CreateRoomRequest : Type 0 where
  pub room_name : Text
  pub max_players : ℤ

pub record JoinRoomRequest : Type 0 where
  pub room_id : Text
  pub user_id : Text

pub data StatusCode : Type 0 where
  ok_code cancelled unknown invalid_argument deadline_exceeded not_found already_exists : StatusCode
  permission_denied resource_exhausted failed_precondition aborted out_of_range : StatusCode
  unimplemented internal unavailable data_loss unauthenticated : StatusCode

-- static_cast<int>(code)
abbrev pub code_number : StatusCode → ℕ
code_number ok_code = 0
code_number cancelled = 1
code_number unknown = 2
code_number invalid_argument = 3
code_number deadline_exceeded = 4
code_number not_found = 5
code_number already_exists = 6
code_number permission_denied = 7
code_number resource_exhausted = 8
code_number failed_precondition = 9
code_number aborted = 10
code_number out_of_range = 11
code_number unimplemented = 12
code_number internal = 13
code_number unavailable = 14
code_number data_loss = 15
code_number unauthenticated = 16

-- grpc::Status
pub record Status : Type 0 where
  pub code : StatusCode
  pub message : Text

abbrev pub status_ok : Status
status_ok = record { code = ok_code; message = [] }

abbrev pub is_ok_code : StatusCode → Bool
is_ok_code ok_code = true
is_ok_code _ = false

-- status.ok()
abbrev pub is_ok : Status → Bool
is_ok s = is_ok_code s.code
