-- ===== src/Api/TokenPolicy/Routes.antt =====
-- internal/api/api_token_policy.go: the catalog of the routes that personal API tokens may call.
use tgproxy_panel.Prelude.{String, Bool, true, false, List, [], ◌∷◌, ◌++◌, nat_eq, string_eq}

pub record ApiRoute : Type 0 where
  pub method : String
  pub path : String
  pub scope : String
  pub summary : String
  pub owner_only : Bool

abbrev pub route : String → String → String → String → Bool → ApiRoute
route method path scope summary owner_only = record {
  method = method;
  path = path;
  scope = scope;
  summary = summary;
  owner_only = owner_only;
}

abbrev pub node_routes : List ApiRoute
node_routes =
    route "GET" "/api/v1/nodes" "nodes:read" "List nodes" false
    ∷ route "GET" "/api/v1/nodes/{id}" "nodes:read" "Get node" false
    ∷ route "GET" "/api/v1/nodes/{id}/probes" "nodes:read" "List node probes" false
    ∷ route "GET" "/api/v1/nodes/{id}/health" "nodes:read" "Get node health" false
    ∷ route "GET" "/api/v1/nodes/{id}/reliability" "nodes:read" "Get node reliability" false
    ∷ route "GET" "/api/v1/nodes/{id}/blocklist" "nodes:read" "Get node blocklist" false
    ∷ route "GET" "/api/v1/nodes/{id}/profiles" "nodes:read" "List node profiles" false
    ∷ route "GET" "/api/v1/nodes/{id}/stats" "nodes:read" "Get node statistics" false
    ∷ route "GET" "/api/v1/nodes/{id}/metrics" "nodes:read" "Get node metrics" false
    ∷ route "GET" "/api/v1/nodes/{id}/jobs" "nodes:write" "List node apply jobs" false
    ∷ route "GET" "/api/v1/nodes/{id}/web-policy" "nodes:read" "Get node web policy" false
    ∷ route "GET" "/api/v1/nodes/{id}/web/carriers" "nodes:read" "Get node web carriers" false
    ∷ route "GET" "/api/v1/nodes/{id}/telemt-update" "nodes:write" "List node update jobs" false
    ∷ route "GET" "/api/v1/nodes/{id}/diagnostics" "nodes:write" "List node diagnostics" false
    ∷ route "GET" "/api/v1/fleet/updates" "nodes:write" "List fleet updates" false
    ∷ route "GET" "/api/v1/status/update" "nodes:read" "Get panel update status" false
    ∷ route "POST" "/api/v1/nodes/preflight/dns" "nodes:write" "Check node DNS" false
    ∷ route "POST" "/api/v1/nodes" "nodes:write" "Create node" false
    ∷ route "PUT" "/api/v1/nodes/order" "nodes:write" "Reorder nodes" false
    ∷ route "PATCH" "/api/v1/nodes/{id}" "nodes:write" "Update node" false
    ∷ route "DELETE" "/api/v1/nodes/{id}" "nodes:write" "Delete node" false
    ∷ route "GET" "/api/v1/nodes/{id}/install-command" "nodes:write" "Issue node install command"
        false
    ∷ route "GET" "/api/v1/nodes/{id}/registration-secret" "nodes:write"
        "Get node registration secret" false
    ∷ route "GET" "/api/v1/nodes/{id}/logs" "nodes:write" "Stream node logs" false
    ∷ route "PUT" "/api/v1/nodes/{id}/reliability" "nodes:write" "Update node reliability" false
    ∷ route "PUT" "/api/v1/nodes/{id}/blocklist" "nodes:write" "Update node blocklist" false
    ∷ route "POST" "/api/v1/nodes/{id}/restart" "nodes:write" "Restart node" false
    ∷ route "POST" "/api/v1/nodes/{id}/apply" "nodes:write" "Apply node configuration" false
    ∷ route "POST" "/api/v1/nodes/{id}/web/lifecycle" "nodes:write" "Control node web lifecycle"
        false
    ∷ route "PUT" "/api/v1/nodes/{id}/web-policy" "nodes:write" "Update node web policy" false
    ∷ route "POST" "/api/v1/nodes/{id}/check" "nodes:write" "Check node" false
    ∷ route "POST" "/api/v1/nodes/{id}/telemt-update" "nodes:write" "Update node telemt" false
    ∷ route "POST" "/api/v1/nodes/{id}/diagnostics/web" "nodes:write" "Run node web diagnostics"
        false
    ∷ route "POST" "/api/v1/fleet/updates" "nodes:write" "Start fleet update" false
    ∷ route "POST" "/api/v1/fleet/updates/{id}/stop" "nodes:write" "Stop fleet update" false
    ∷ []

abbrev pub user_routes : List ApiRoute
user_routes =
    route "GET" "/api/v1/keys" "users:read" "List users" false
    ∷ route "GET" "/api/v1/keys/summary" "users:read" "Get user summary" false
    ∷ route "GET" "/api/v1/keys/{id}" "users:read" "Get user" false
    ∷ route "GET" "/api/v1/keys/{id}/stats" "users:read" "Get user statistics" false
    ∷ route "GET" "/api/v1/keys/{id}/presence" "users:read" "Get people online for a user" false
    ∷ route "POST" "/api/v1/keys" "users:write" "Create user" false
    ∷ route "POST" "/api/v1/keys/batch" "users:write" "Create users in batch" false
    ∷ route "POST" "/api/v1/keys/import" "users:write" "Import users" false
    ∷ route "POST" "/api/v1/keys/bulk" "users:write" "Perform bulk user action" false
    ∷ route "PATCH" "/api/v1/keys/{id}" "users:write" "Update user" false
    ∷ route "DELETE" "/api/v1/keys/{id}" "users:write" "Delete user" false
    ∷ route "POST" "/api/v1/keys/{id}/revoke" "users:write" "Revoke user" false
    ∷ route "POST" "/api/v1/keys/{id}/rotate" "users:write" "Rotate user secret" false
    ∷ route "POST" "/api/v1/keys/{id}/disable" "users:write" "Disable user" false
    ∷ route "POST" "/api/v1/keys/{id}/enable" "users:write" "Enable user" false
    ∷ route "GET" "/api/v1/keys/{id}/links" "users:write" "Get user proxy links" false
    ∷ route "GET" "/api/v1/keys/{id}/qr" "users:write" "Get user proxy QR code" false
    ∷ route "POST" "/api/v1/keys/{id}/bindings" "users:write" "Bind user to node" false
    ∷ route "DELETE" "/api/v1/keys/{id}/bindings/{node}" "users:write" "Unbind user from node" false
    ∷ route "POST" "/api/v1/keys/{id}/subscription" "users:write" "Issue user subscription" false
    ∷ route "DELETE" "/api/v1/keys/{id}/subscription" "users:write" "Revoke user subscription" false
    ∷ route "GET" "/api/v1/keys/{id}/subscription/qr" "users:write" "Get user subscription QR code"
        false
    ∷ []

abbrev pub monitoring_routes : List ApiRoute
monitoring_routes =
    route "GET" "/api/v1/monitoring/overview" "monitoring:read" "Get monitoring overview" false
    ∷ route "GET" "/api/v1/monitoring/nodes/{id}/series" "monitoring:read"
        "Get node monitoring series" false
    ∷ route "GET" "/api/v1/monitoring/web/carriers" "monitoring:read" "Get fleet web carriers" false
    ∷ route "GET" "/api/v1/dashboard/summary" "monitoring:read" "Get dashboard summary" false
    ∷ route "GET" "/api/v1/dashboard/trends" "monitoring:read" "Get dashboard trends" false
    ∷ route "GET" "/api/v1/alerts" "monitoring:read" "List alerts" false
    ∷ route "GET" "/api/v1/status/public" "monitoring:read" "Get public service status" false
    ∷ route "POST" "/api/v1/alerts/resolve" "monitoring:write" "Resolve alerts" false
    ∷ route "POST" "/api/v1/alerts/{id}/resolve" "monitoring:write" "Resolve alert" false
    ∷ []

abbrev pub site_routes : List ApiRoute
site_routes =
    route "GET" "/api/v1/site-templates" "sites:read" "List site templates" false
    ∷ route "GET" "/api/v1/site-templates/{id}" "sites:read" "Get site template" false
    ∷ route "GET" "/api/v1/nodes/{id}/site" "sites:read" "Get node site" false
    ∷ route "GET" "/api/v1/nodes/{id}/site/preview" "sites:read" "Preview node site" false
    ∷ route "POST" "/api/v1/site-templates/import" "sites:write" "Import site template" false
    ∷ route "POST" "/api/v1/site-templates" "sites:write" "Create site template" false
    ∷ route "POST" "/api/v1/site-templates/validate" "sites:write" "Validate site template" false
    ∷ route "POST" "/api/v1/site-templates/{id}/customize" "sites:write" "Customize site template"
        false
    ∷ route "PUT" "/api/v1/site-templates/{id}" "sites:write" "Update site template" false
    ∷ route "DELETE" "/api/v1/site-templates/{id}" "sites:write" "Delete site template" false
    ∷ route "POST" "/api/v1/nodes/{id}/site" "sites:write" "Assign node site" false
    ∷ route "POST" "/api/v1/nodes/{id}/site/upstream" "sites:write" "Assign node upstream site"
        false
    ∷ []

abbrev pub branding_routes : List ApiRoute
branding_routes =
    route "GET" "/api/v1/branding/profiles" "branding:read" "List branding profiles" false
    ∷ route "POST" "/api/v1/branding/profiles" "branding:write" "Create branding profile" false
    ∷ route "PUT" "/api/v1/branding/profiles/{id}" "branding:write" "Update branding profile" false
    ∷ route "DELETE" "/api/v1/branding/profiles/{id}" "branding:write" "Delete branding profile"
        false
    ∷ route "POST" "/api/v1/branding/profiles/{id}/activate" "branding:write"
        "Activate branding profile" false
    ∷ route "POST" "/api/v1/branding/profiles/{id}/upload" "branding:write" "Upload branding asset"
        false
    ∷ []

abbrev pub settings_routes : List ApiRoute
settings_routes =
    route "GET" "/api/v1/settings" "settings:read" "Get panel settings" false
    ∷ route "GET" "/api/v1/settings/subscription-page/preview" "settings:read"
        "Preview subscription page" false
    ∷ route "PUT" "/api/v1/settings" "settings:write" "Update panel settings" true
    ∷ route "POST" "/api/v1/settings/telegram/test" "settings:write" "Test Telegram notifications"
        true
    ∷ []

abbrev pub audit_routes : List ApiRoute
audit_routes = route "GET" "/api/v1/audit" "audit:read" "List audit events" false ∷ []

-- managementAPIRoutes, in the order of the source.
unfoldable pub management_api_routes : List ApiRoute
management_api_routes =
    node_routes
    ++ (user_routes
        ++ (monitoring_routes
            ++ (site_routes ++ (branding_routes ++ (settings_routes ++ (audit_routes))))))
