-- ===== src/Rbac/Actions.antt =====
-- packages/rbac/src/actions.ts.
use mavio_mcp.Base.{String}

abbrev pub workspace_admin : String
workspace_admin = "workspace:admin"

abbrev pub project_read : String
project_read = "project:read"

abbrev pub project_write : String
project_write = "project:write"

abbrev pub server_read : String
server_read = "server:read"

abbrev pub server_write : String
server_write = "server:write"

abbrev pub server_invoke : String
server_invoke = "server:invoke"

abbrev pub server_admin : String
server_admin = "server:admin"

abbrev pub server_import_submit : String
server_import_submit = "server:import.submit"

abbrev pub server_approve : String
server_approve = "server:approve"

abbrev pub tool_invoke : String
tool_invoke = "tool:invoke"

abbrev pub plugin_install : String
plugin_install = "plugin:install"

abbrev pub config_write : String
config_write = "config:write"

abbrev pub audit_read : String
audit_read = "audit:read"

abbrev pub event_route_submit : String
event_route_submit = "event:route.submit"

abbrev pub event_route_approve : String
event_route_approve = "event:route.approve"

abbrev pub event_publish : String
event_publish = "event:publish"
