-- ===== src/Router/Tests.antt =====
-- The router at concrete inputs.
use mavio_mcp.Base.{ℕ, ◌≡◌, refl, ◌⊎◌, String, true, false, Option, none, some, [], ◌∷◌, length}
use mavio_mcp.Json.{obj, end, field, str}
use mavio_mcp.Json.Print.{stringify}
use mavio_mcp.Core.{ServerDescriptor, approved, Principal, number_id, McpFrame}
use mavio_mcp.Core.Breaker.{
  new_breaker, enter, settle, admit, enter_entry, settle_entry, entry_for, snapshot,
}
use mavio_mcp.Sessions.McpSession.{
  new_store, register, pre_call, check_rate, check_loop, record_outcome,
}
use mavio_mcp.Router.{found_server, resolved, thrown, apply_injection}
use mavio_mcp.Router.Names.{split_name, full_name}
use mavio_mcp.Router.Request.{ToolCall, error_frame, result_frame, is_approved}
use mavio_mcp.Router.Report.{Ending, answered, undefined_length}
use mavio_mcp.Router.Dispatch.{load_capabilities, dispatch_by_kind, dispatch_native_mcp}
use mavio_mcp.Router.Finish.{finish, finish_session}
use mavio_mcp.Router.Service.{
  call_tool, check_approval, authorize, find_tool, limit_rate, check_session, resolve_upstream,
  dispatch,
}
use mavio_mcp.Router.Handle.{
  handle, call_param, call_named, list_all_tools, list_tools_of, load_servers, filter_by_region,
  invoke_and_return,
}
use mavio_mcp.Router.Example.{server, no_frame, backends, state, clock, iso, digest, caller}
use mavio_mcp.Router.Gates.{dispatches, call_tool-dispatches, Authorized, Known, Sent}
use mavio_mcp.Router.Answers.{Answers}
use mavio_mcp.Router.Counts.{Counted, call_tool-Counted}
use mavio_mcp.Router.Audit.{audits, finish-audits}

router : Unit {0}
unfolding new_breaker enter settle admit enter_entry settle_entry entry_for snapshot new_store
    register pre_call check_rate check_loop record_outcome apply_injection split_name full_name
    error_frame result_frame load_capabilities dispatch_by_kind dispatch_native_mcp finish
    finish_session call_tool check_approval authorize find_tool limit_rate check_session
    resolve_upstream dispatch handle call_param call_named list_all_tools list_tools_of load_servers
    filter_by_region invoke_and_return stringify
router = tt

abbrev call : String → Option Principal → ToolCall
call server_id p = record {
  frame_id = some (number_id 1);
  fq_name = full_name server_id "echo";
  server_id = server_id;
  tool_name = "echo";
  args = obj end;
  principal = p;
  session_id = some "s";
}

abbrev sent : String → Option Principal → ℕ
sent id p = (call_tool backends iso digest state (call id p) clock).0.world

router_tests :
    (sent "up" none ≡ 1)
    × (sent "new" none ≡ 0)
    × (sent "up" (some (caller [])) ≡ 0)
    × (sent "up" (some (caller ("*" ∷ []))) ≡ 1)
    × (length (audits (call_tool backends iso digest state (call "up" none) clock).0.log) ≡ 1)
    × ((call_tool backends iso digest state (call "gone" none) clock).1
        ≡ resolved (error_frame (some (number_id 1)) 32001 "none"))
unfolding router
router_tests = (refl, refl, refl, refl, refl, refl)

call_tool-dispatches_example :
    let s' = (call_tool backends iso digest state (call "up" none) clock).0 in
    (dispatches s'.log ≡ dispatches state.log)
    ⊎ ((d : ServerDescriptor) × (backends.registry_get state.world "up" ≡ found_server d)
        × (is_approved d.approval_status ≡ true)
        × Authorized backends iso digest state.world (call "up" none) d none
        × Known backends iso digest state (call "up" none)
        × Sent (call "up" none) clock d.id state s')
call_tool-dispatches_example = call_tool-dispatches backends iso digest state (call "up" none) clock

call_tool-Counted_example :
    Counted backends iso digest state
      (call "up" none)
      clock
      (call_tool backends iso digest state (call "up" none) clock)
call_tool-Counted_example = call_tool-Counted backends iso digest state (call "up" none) clock

abbrev call_frame : McpFrame
call_frame = record no_frame {
  method = some "tools/call";
  params = some (obj (field "name" (str "up.echo") end));
}

abbrev silent : Ending
silent =
    answered
      (record { result = none; is_error = false; backend_request = none; backend_response = none })

finish-audits_example :
    let (s', answer) = finish iso state (call "up" none) (server "up" approved) clock silent in
    (length (audits s'.log) ≡ 0) × (answer ≡ thrown undefined_length)
unfolding router
finish-audits_example = finish-audits iso state (call "up" none) (server "up" approved) clock silent
