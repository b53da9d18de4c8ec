-- ===== src/Gateway/Messages.antt =====
-- How the routes of gateways/access_gateway/routing/grpc_router.cpp read a request from JSON and
-- write a response as JSON. A member of another type raises.
use kd.Base.{lit, [], ◌∷◌, pos, Result, ok, ◌>>=◌}
use kd.Json.{JsonApi}
use kd.Context.{RequestContext}
use kd.Api.{ConfigEntry, UserProfile, GetConfigRequest, CreateRoomRequest, JoinRoomRequest}

module _ (api : JsonApi) where
  unfoldable pub config_json : ConfigEntry → api.Json
  config_json e = api.object (
      (lit "namespace_name", api.string e.namespace_name)
      ∷ (lit "key", api.string e.key)
      ∷ (lit "value", api.string e.value)
      ∷ (lit "version", api.number e.version)
      ∷ (lit "environment", api.string e.environment)
      ∷ [])

  unfoldable pub user_json : UserProfile → api.Json
  user_json p = api.object (
      (lit "user_id", api.string p.user_id)
      ∷ (lit "nickname", api.string p.nickname)
      ∷ (lit "avatar", api.string p.avatar)
      ∷ (lit "level", api.number p.level)
      ∷ (lit "created_at", api.number p.created_at)
      ∷ [])

  unfoldable pub created_json : UserProfile → api.Json
  created_json p =
      api.object
        ((lit "user_id", api.string p.user_id) ∷ (lit "nickname", api.string p.nickname) ∷ [])

  unfoldable pub read_config_get : api.Json → Result GetConfigRequest
  read_config_get json = api.value_string json (lit "namespace_name") [] >>= (λ namespace_name.
      api.value_string json (lit "key") []
      >>= (λ key. ok (record { namespace_name = namespace_name; key = key })))

  unfoldable pub read_config_publish : api.Json → Result ConfigEntry
  read_config_publish json = api.value_string json (lit "namespace_name") [] >>= (λ namespace_name.
      api.value_string json (lit "key") [] >>= (λ key.
        api.value_string json (lit "value") [] >>= (λ value.
          api.value_string json (lit "environment") (lit "dev") >>= (λ environment. ok (record {
            namespace_name = namespace_name;
            key = key;
            value = value;
            version = pos 0;
            environment = environment;
          })))))

  unfoldable pub read_create_room : api.Json → Result CreateRoomRequest
  read_create_room json = api.value_string json (lit "room_name") [] >>= (λ room_name.
      api.value_int json (lit "max_players") (pos 4)
      >>= (λ max_players. ok (record { room_name = room_name; max_players = max_players })))

  -- `ctx` is the request's context: its user is the default
  unfoldable pub read_join_room : RequestContext → api.Json → Result JoinRoomRequest
  read_join_room ctx json = api.value_string json (lit "room_id") [] >>= (λ room_id.
      api.value_string json (lit "user_id") ctx.user_id
      >>= (λ user_id. ok (record { room_id = room_id; user_id = user_id })))
