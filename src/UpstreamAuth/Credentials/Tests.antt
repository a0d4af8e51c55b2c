-- ===== src/UpstreamAuth/Credentials/Tests.antt =====
-- The repository of credentials at concrete inputs.
use mavio_mcp.Base.{
  ℕ, ◌≤◌, ◌≡◌, ◌≢◌, refl, arith, String, Bool, true, false, Option, none, some, List, [], ◌∷◌, map,
  length,
}
use mavio_mcp.Base.Map.{get}
use mavio_mcp.Json.{str}
use mavio_mcp.UpstreamAuth.Keyring.{mavio_error, fine}
use mavio_mcp.UpstreamAuth.Vault.{
  encrypt, decrypt, rewrap, local_primary, local_wrap, local_unwrap, local_key_wrapper,
}
use mavio_mcp.UpstreamAuth.Credentials.{
  CredentialRow, UpstreamToken, payload_of, upsert, update_where, revoke, count_rows,
  count_by_key_id, token_of, to_token, put, get_token, rewrap_row, rewrap_rows, rewrap_stale,
  rewrap_token,
}
use mavio_mcp.UpstreamAuth.Credentials.Secrets.{
  put_token, revoke_token, sweep, rewrap_one, spec_run, Command,
}
use mavio_mcp.UpstreamAuth.Credentials.Rows.{IsTable}
use mavio_mcp.UpstreamAuth.Credentials.Refinement.{view, run, run-refines}
use mavio_mcp.UpstreamAuth.Credentials.Sweeps.{sweep_service, sweeps, sweeps_complete}
use mavio_mcp.UpstreamAuth.Credentials.Stuck.{sweeps-stuck}
use mavio_mcp.UpstreamAuth.Credentials.Reads.{get_token-put}
use mavio_mcp.UpstreamAuth.Example.{
  crypto, crypto-IsCrypto, wrapper, wrapper-IsWrapper, random, random-IsDraws, encoding, table,
  table-IsTable, stuck_table, input,
}

credentials : Unit {0}
unfolding encrypt decrypt rewrap local_primary local_wrap local_unwrap local_key_wrapper payload_of
    upsert update_where revoke count_rows count_by_key_id token_of to_token put get_token rewrap_row
    rewrap_rows rewrap_stale rewrap_token sweep_service mavio_mcp.Json.Print.stringify
    mavio_mcp.Json.prop mavio_mcp.Json.lookup_field mavio_mcp.Base.Sort.sort_by
    mavio_mcp.Base.Text.show
credentials = tt

credentials_tests :
    (map
        (λ (r : CredentialRow). r.envelope.key_id)
        (rewrap_stale crypto wrapper random table 10 77).0.rows
      ≡ "v2" ∷ "v2" ∷ [])
    × ((rewrap_stale crypto wrapper random table 10 77).1
        ≡ fine (record { rewrapped = 1; scanned = 1 }))
    × ((revoke table "u1" "slack").1 ≡ true)
    × ((revoke table "u3" "slack").1 ≡ false)
    × (get "v1" (count_by_key_id table) ≡ some 1)
    × ((sweep_service crypto wrapper random stuck_table 1 77).1
        ≡ some "[vault-rewrap] rewrapped 0/1")
    × (get_token crypto wrapper encoding stuck_table "u1" "slack"
        ≡ mavio_error "no local KEK for keyId v0 — was it retired prematurely?" "VAULT_UNKNOWN_KEY")
    × (get_token crypto wrapper encoding stuck_table "u9" "slack" ≡ fine none)
unfolding credentials
credentials_tests = (refl, refl, refl, refl, refl, refl, refl, refl)

abbrev commands : List Command
commands =
    put_token input 10 ∷ sweep 5 20 ∷ rewrap_one "u2" "slack" 30 ∷ revoke_token "u1" "slack" ∷ []

run-refines_example :
    (view crypto wrapper (
        run crypto crypto-IsCrypto wrapper wrapper-IsWrapper encoding random random-IsDraws table
          commands)
      ≡ spec_run encoding.to_bytes (view crypto wrapper table) commands)
    × IsTable (
        run crypto crypto-IsCrypto wrapper wrapper-IsWrapper encoding random random-IsDraws table
          commands)
run-refines_example =
    run-refines crypto crypto-IsCrypto wrapper wrapper-IsWrapper encoding random random-IsDraws
      table commands table-IsTable

sweeps_complete_example :
    ((key_id : String)
      → key_id ≢ "v2"
      → get key_id (count_by_key_id (sweeps crypto wrapper random 10 table (50 ∷ []))) ≡ none)
    × (view crypto wrapper (sweeps crypto wrapper random 10 table (50 ∷ []))
        ≡ view crypto wrapper table)
unfolding credentials
sweeps_complete_example =
    sweeps_complete crypto crypto-IsCrypto wrapper wrapper-IsWrapper random random-IsDraws "v2"
      table 10 (50 ∷ []) refl (omega arith) table-IsTable ((1 ∷ [], refl), ((1 ∷ [], refl), tt))
      (omega arith)

sweeps-stuck_example :
    (sweeps crypto wrapper random 1 stuck_table (50 ∷ 60 ∷ 70 ∷ [])).rows ≡ stuck_table.rows
unfolding credentials
sweeps-stuck_example =
    sweeps-stuck crypto wrapper random "v2" stuck_table 1 (50 ∷ 60 ∷ 70 ∷ []) refl ((_, refl), tt)

get_token-put_example :
    (t : UpstreamToken) × ((put crypto wrapper encoding random table input 10).1 ≡ fine t)
    × (get_token crypto wrapper encoding
          (put crypto wrapper encoding random table input 10).0
          "u1"
          "slack"
        ≡ fine (some t))
    × (t.access_token ≡ some (str "at"))
    × (t.refresh_token ≡ some (str "rt"))
    × (t.expires_at ≡ some 900000)
    × (wrapper.primary_key_id ≡ fine t.key_id)
get_token-put_example =
    get_token-put crypto crypto-IsCrypto wrapper wrapper-IsWrapper encoding random random-IsDraws
      table input 10 refl
