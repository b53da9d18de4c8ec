-- ===== src/Context/Metadata.antt =====
-- The metadata of a call: AddMetadata of gateways/access_gateway/routing/grpc_router.cpp, and the
-- two interceptors of framework/rpc. gRPC's metadata map is a list of pairs, in the order in which it
-- is traversed. What gRPC does to it on the way is no part of this file.
pub mod Transported
use kd.Base.{
  Bool, Text, lit, is_empty, str_eq, List, [], ◌∷◌, ◌++◌, Option, none, some, if◌then◌else◌,
}
use kd.Context.{RequestContext, no_context}
use kd.Context.Store.{Store, get_current, set_current, clear_current}

abbrev pub Metadata : Type 0
Metadata = List (Text × Text)

-- `if (!v.empty()) AddMetadata(key, v)`
abbrev pub entry : Text → Text → Metadata
entry key v = if is_empty v then [] else (key, v) ∷ []

-- AddMetadata: the entries that a context adds
unfoldable pub add_metadata : RequestContext → Metadata
add_metadata ctx =
    entry (lit "x-request-id") ctx.request_id
    ++ (entry (lit "x-trace-id") ctx.trace_id
        ++ (entry (lit "x-user-id") ctx.user_id
            ++ (entry (lit "x-traffic-tag") ctx.traffic_tag
                ++ (entry (lit "x-client-version") ctx.client_version
                    ++ entry (lit "x-zone") ctx.zone))))

-- MetadataClientInterceptor::Intercept at PRE_SEND_INITIAL_METADATA: the entries it sends in
-- addition; `none` for absent metadata
unfoldable pub client_intercept : Store → Option Metadata → Option Metadata
unfolding add_metadata get_current
client_intercept s none = none
client_intercept s (some sent) = some (sent ++ add_metadata (get_current s))

-- The chain of tests on one entry in MetadataServerInterceptor::Intercept.
unfoldable pub receive : RequestContext → Text × Text → RequestContext
receive ctx (key, value) =
    if str_eq key (lit "x-request-id")
    then record ctx { request_id = value }
    else if str_eq key (lit "x-trace-id")
    then record ctx { trace_id = value }
    else if str_eq key (lit "x-user-id")
    then record ctx { user_id = value }
    else if str_eq key (lit "x-traffic-tag")
    then record ctx { traffic_tag = value }
    else if str_eq key (lit "x-client-version")
    then record ctx { client_version = value }
    else if str_eq key (lit "x-zone")
    then record ctx { zone = value }
    else ctx

unfoldable pub receive_all : RequestContext → Metadata → RequestContext
receive_all ctx [] = ctx
receive_all ctx (e ∷ es) = receive_all (receive ctx e) es

-- MetadataServerInterceptor::Intercept at POST_RECV_INITIAL_METADATA and at PRE_SEND_STATUS
unfoldable pub server_intercept : (received status : Bool) → Option Metadata → Store → Store
unfolding receive_all receive set_current clear_current
server_intercept received status metadata s =
    let context : RequestContext = elim metadata [
      | none ↦ no_context
      | some es ↦ receive_all no_context es
    ] in
    let after = if received then set_current context s else s in
    if status then clear_current after else after
