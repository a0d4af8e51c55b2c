-- ===== src/Access/Sessions.antt =====
-- apps/server/src/session.store.ts: `SessionStore`, over Redis. `Redis` is what the client of the
-- store answers, with the time in milliseconds, and `SessionCodec` is JSON on the two records; a
-- read has no result where `JSON.parse` throws.
use Prim.Native.String.{◌++◌}
use mavio_mcp.Base.{ℕ, ◌+◌, ◌*◌, String, Option, none, some, str_eq, ltb, if◌then◌else◌}

pub record SessionData : Type 0 where
  pub principal_id : String
  pub provider_id : String
  pub workspace_id : String
  pub email : Option String
  pub display_name : Option String
  pub created_at : ℕ
  pub expires_at : ℕ

pub record OidcState : Type 0 where
  pub provider_id : String
  pub code_verifier : String
  pub nonce : String
  pub state : String
  pub return_to : String

pub record Redis (W : Type 0) : Type 0 where
  pub get : W → ℕ → String → Option String
  pub set_ex : W → ℕ → String → String → ℕ → W
  pub del : W → String → W

pub record SessionCodec : Type 0 where
  pub write_session : SessionData → String
  pub read_session : String → Option SessionData
  pub write_state : OidcState → String
  pub read_state : String → Option OidcState

abbrev pub session_key : String → String
session_key sid = "mavio:sess:" ++ sid

abbrev pub state_key : String → String
state_key state = "mavio:oidc:state:" ++ state

module _ {W : Type 0} (redis : Redis W) (codec : SessionCodec) where
  -- `create`, with the random session id and the data without times.
  unfoldable pub create_session : W → String → SessionData → ℕ → ℕ → W
  create_session w sid d ttl_seconds now =
      let full : SessionData = record d {
        created_at = now;
        expires_at = now + ttl_seconds * 1000;
      } in
      redis.set_ex w now (session_key sid) (codec.write_session full) ttl_seconds

  unfoldable pub destroy_session : W → String → W
  destroy_session w sid = redis.del w (session_key sid)

  unfoldable pub read_session : W → String → ℕ → W × Option SessionData
  unfolding destroy_session
  read_session w sid now = elim (redis.get w now (session_key sid)) [
    | none ↦ (w, none)
    | some raw ↦ if str_eq raw "" then (w, none) else elim (codec.read_session raw) [
      | none ↦ (w, none)
      | some d ↦ if ltb d.expires_at now then (destroy_session w sid, none) else (w, some d)
    ]
  ]

  unfoldable pub save_state : W → OidcState → ℕ → ℕ → W
  save_state w d ttl_seconds now =
      redis.set_ex w now (state_key d.state) (codec.write_state d) ttl_seconds

  unfoldable pub consume_state : W → String → ℕ → W × Option OidcState
  consume_state w state now = elim (redis.get w now (state_key state)) [
    | none ↦ (w, none)
    | some raw ↦
        if str_eq raw "" then (w, none) else (redis.del w (state_key state), codec.read_state raw)
  ]
