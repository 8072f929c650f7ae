-- ===== src/Agent/Routes.antt =====
-- The `match` on the method and the path in `response_for_request_with_state` of src/lib.rs.
use localscale.Prelude.{◌&&◌, List, [], ◌∷◌, Bytes, codes, bytes_eq, if◌then◌else◌}

pub data Route : Type 0 where
  to_status to_peer_status to_generate to_import to_config to_approve to_revoke to_reset to_remove :
      Route
  to_virtual_ip to_restart to_devices to_logs to_mode to_start to_stop to_sync to_page to_health :
      Route
  to_version to_old_mode to_old_set_mode to_onion to_diagnostics to_nothing : Route

-- The arms, in their order.
abbrev pub arms : List ((Bytes × Bytes) × Route)
arms =
    ((codes "GET", codes "/api/v1/status"), to_status)
    ∷ ((codes "GET", codes "/api/v1/peer/status"), to_peer_status)
    ∷ ((codes "POST", codes "/api/v1/invitations/generate"), to_generate)
    ∷ ((codes "POST", codes "/api/v1/invitations/import"), to_import)
    ∷ ((codes "POST", codes "/api/v1/peer/config"), to_config)
    ∷ ((codes "POST", codes "/api/v1/peer/approve"), to_approve)
    ∷ ((codes "POST", codes "/api/v1/peer/revoke"), to_revoke)
    ∷ ((codes "POST", codes "/api/v1/peer/reset"), to_reset)
    ∷ ((codes "POST", codes "/api/v1/peer/remove"), to_remove)
    ∷ ((codes "POST", codes "/api/v1/peer/virtual-ip"), to_virtual_ip)
    ∷ ((codes "POST", codes "/api/v1/runtime/restart"), to_restart)
    ∷ ((codes "GET", codes "/api/v1/devices"), to_devices)
    ∷ ((codes "GET", codes "/api/v1/logs"), to_logs)
    ∷ ((codes "POST", codes "/api/v1/mode"), to_mode)
    ∷ ((codes "POST", codes "/api/v1/service/start"), to_start)
    ∷ ((codes "POST", codes "/api/v1/service/stop"), to_stop)
    ∷ ((codes "POST", codes "/api/v1/sync"), to_sync)
    ∷ ((codes "GET", codes "/"), to_page)
    ∷ ((codes "GET", codes "/config"), to_page)
    ∷ ((codes "GET", codes "/health"), to_health)
    ∷ ((codes "GET", codes "/version"), to_version)
    ∷ ((codes "GET", codes "/status"), to_status)
    ∷ ((codes "GET", codes "/mode"), to_old_mode)
    ∷ ((codes "POST", codes "/mode"), to_old_set_mode)
    ∷ ((codes "GET", codes "/onion"), to_onion)
    ∷ ((codes "GET", codes "/diagnostics"), to_diagnostics)
    ∷ ((codes "GET", codes "/api/v1/diagnostics"), to_diagnostics)
    ∷ []

unfoldable pub find_route : List ((Bytes × Bytes) × Route) → Bytes → Bytes → Route
find_route [] method path = to_nothing
find_route (((m, p), route) ∷ rest) method path =
    let other = find_route rest method path in
    if bytes_eq m method && bytes_eq p path then route else other

abbrev pub route_of : Bytes → Bytes → Route
route_of method path = find_route arms method path
