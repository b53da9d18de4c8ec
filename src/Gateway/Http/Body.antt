-- ===== src/Gateway/Http/Body.antt =====
-- HandleRequest and HandleRequestAsync are written out twice in
-- gateways/access_gateway/http/http_server.cpp. Here their body is stated once, with the routing as
-- an argument.
use kd.Base.{ℕ, ◌≡◌, refl, Option, Text, lit, str_eq, if◌then◌else◌, Bool, ok}
use kd.Base.Exec.{Exec}
use kd.Json.{JsonApi}
use kd.Log.{to_lower_ascii}
use kd.Auth.Token.{AuthOptions}
use kd.Metrics.{render_prometheus}
use kd.Gateway.Router.Route.{Downstream, route_with_status, route_with_status_async}
use kd.Gateway.Server.{
  Server, HttpResponse, json_response, ready, registry, with_admin, with_user, with_router,
  admin_log_level,
}
use kd.Gateway.Http.{
  Routing, admin_runtime_config, authenticated, route_request, handle_request, handle_request_async,
}
use kd.Gateway.Http.Headers.{HeaderMap}

module _ (api : JsonApi) (hmac : Text → Text → Text) (auth : Option AuthOptions) (now : ℕ)
    (file_ok : Bool) where
  unfoldable pub shared_body :
      Routing → (method path body auth_token : Text) → HeaderMap → Exec Server HttpResponse
  unfolding admin_log_level admin_runtime_config route_request authenticated with_admin with_user
      with_router ready render_prometheus to_lower_ascii
  shared_body routing method path body auth_token headers s =
      let normalized_method : Text = to_lower_ascii method in
      let auth_ctx = authenticated api hmac auth now auth_token in
      if str_eq path (lit "/health")
      then (ok (json_response 200 (lit "{\"status\":\"ok\",\"service\":\"access_gateway\"}")), s)
      else if str_eq path (lit "/ready")
      then (ok (ready s.router), s)
      else if str_eq path (lit "/metrics")
      then (
        ok (record {
          status_code = 200;
          body = render_prometheus (registry s.router s.idle_metrics);
          content_type = lit "text/plain; charset=utf-8";
        }),
        s,
      )
      else if str_eq path (lit "/admin/log-level")
      then with_admin auth_ctx (admin_log_level api file_ok normalized_method body) s
      else if str_eq path (lit "/admin/runtime-config")
      then with_admin auth_ctx
          (λ s'. with_router s'.router (admin_runtime_config api normalized_method body) s') s
      else with_user auth_ctx
          (λ ctx s'. with_router s'.router (route_request routing path body headers ctx.user_id) s')
          s

  module _ (down : Downstream) (method path body token : Text) (headers : HeaderMap)
      (s : Server) where
    pub handle_request-eq-shared_body :
        handle_request api hmac auth now file_ok down method path body token headers s
        ≡ shared_body
            (λ path ctx. route_with_status api down path ctx)
            method
            path
            body
            token
            headers
            s
    unfolding handle_request shared_body
    handle_request-eq-shared_body = refl

    pub handle_request_async-eq-shared_body :
        handle_request_async api hmac auth now file_ok down method path body token headers s
        ≡ shared_body
            (λ path ctx. route_with_status_async api down path ctx)
            method
            path
            body
            token
            headers
            s
    unfolding handle_request_async shared_body
    handle_request_async-eq-shared_body = refl
