-- ===== src/Context.antt =====
-- common/context: the request context, the thread's current context and its scoped replacement.
-- framework/rpc and AddMetadata of the gateway's router: its way through gRPC metadata.
pub mod Store
pub mod Metadata
use kd.Base.{Text, [], Bool, ◌&&◌, is_empty}

pub record RequestContext : Type 0 where
  pub request_id : Text
  pub trace_id : Text
  pub user_id : Text
  pub traffic_tag : Text
  pub client_version : Text
  pub zone : Text

-- RequestContext{}
abbrev pub no_context : RequestContext
no_context = record {
  request_id = [];
  trace_id = [];
  user_id = [];
  traffic_tag = [];
  client_version = [];
  zone = [];
}

-- RequestContext::empty
unfoldable empty : RequestContext → Bool
empty ctx =
    is_empty ctx.request_id
    && is_empty ctx.trace_id
    && is_empty ctx.user_id
    && is_empty ctx.traffic_tag
    && is_empty ctx.client_version
    && is_empty ctx.zone
