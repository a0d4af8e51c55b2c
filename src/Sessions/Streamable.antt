-- ===== src/Sessions/Streamable.antt =====
-- apps/server/src/streamable-http.session-registry.ts: `StreamableHttpSessionRegistry`, on the
-- memory stores. A response is a number; what is written to it and ended is logged, the newest
-- first, and `writable` says whether a write goes through or throws. A frame is given by its JSON
-- text. The calls that the registry does not wait for are done at once.
pub mod Pushes
pub mod Bounds
mod Tests
use Prim.Native.String.{◌++◌}
use mavio_mcp.Base.{
  ℕ, zero, suc, String, Bool, true, false, not, Option, none, some, List, [], ◌∷◌, map, leb, str_eq,
  if◌then◌else◌, length,
}
use mathlib.Core.List.{◌++◌ as append_list}
use mavio_mcp.Base.Map.{Map, get, set, delete, has}
use mavio_mcp.Json.{Json, str, obj, end, field}
use mavio_mcp.Json.Print.{stringify}
use mavio_mcp.Transport.EventStore.{
  StoredEvent, Replayed, gap_event, event, MemoryEventStore, stub_marker, append, read_after, trim,
  delete_session,
}
use mavio_mcp.Sessions.SessionStore.{
  SessionStore, create_session, has_session, touch_session, delete_metadata, reap_sessions,
}

abbrev pub buffer_limit : ℕ
buffer_limit = 100

abbrev push_channel_prefix : String
push_channel_prefix = "mavio:push:"

abbrev pub push_stream_id : String
push_stream_id = "push"

pub record PendingNotification : Type 0 where
  pub chunk : String
  pub event_id : String

pub record LocalSessionState : Type 0 where
  pub push_stream : Option ℕ
  pub pending_notifications : List PendingNotification

pub record StreamableRegistry : Type 0 where
  pub local_state : Map LocalSessionState
  pub store : MemoryEventStore
  pub session_store : SessionStore
  pub has_publisher : Bool
  pub published : List (String × String)
  pub written : List (ℕ × String)
  pub ended : List ℕ
  pub replays : ℕ
  pub gaps : ℕ

unfoldable pub sse_chunk : String → String → String
sse_chunk event_id text = "id: " ++ (event_id ++ ("\nevent: message\ndata: " ++ (text ++ "\n\n")))

abbrev pub new_local : LocalSessionState
new_local = record { push_stream = none; pending_notifications = [] }

abbrev pub local_or_new : Option LocalSessionState → LocalSessionState
local_or_new none = new_local
local_or_new (some local) = local

abbrev pub local_of : StreamableRegistry → String → LocalSessionState
local_of s id = local_or_new (get id s.local_state)

abbrev pub with_local : StreamableRegistry → String → LocalSessionState → StreamableRegistry
with_local s id local = record s { local_state = set id local s.local_state }

unfoldable pub create : StreamableRegistry → String → ℕ → StreamableRegistry × String
create s random now =
    let (sessions, id) = create_session s.session_store none random now in
    (with_local (record s { session_store = sessions }) id new_local, id)

abbrev pub has_id : StreamableRegistry → String → Bool
has_id s id = has_session s.session_store id

unfoldable pub touch : StreamableRegistry → String → ℕ → StreamableRegistry
touch s id now = record s { session_store = (touch_session s.session_store id now).0 }

abbrev warning : String → String → String
warning code message = stringify (
    obj (
      field "jsonrpc" (str "2.0") (
        field "method" (str "notifications/message") (
          field "params"
            (obj (
              field "level" (str "warning") (
                field "logger" (str "mavio/event-store") (
                  field "data" (obj (field "code" (str code) (field "message" (str message) end)))
                    end))))
            end))))

abbrev pub gap_chunk : String
gap_chunk =
    "event: message\ndata: "
    ++ (warning "mavio/replay_gap" "Some events were trimmed; replay is partial." ++ "\n\n")

-- The chunk of a stored event.
abbrev pub event_chunk : StoredEvent → String
event_chunk e = sse_chunk e.id (
    if str_eq e.payload stub_marker
    then warning "mavio/oversized_event" "Event was too large to store; re-issue the request."
    else e.payload)

-- `if (lastEventId)`.
abbrev pub given : Option String → Option String
given none = none
given (some s) = if str_eq s "" then none else some s

-- The buffer after `pendingNotifications.shift()` where it is full, and `push`.
abbrev pub drop_first : List PendingNotification → List PendingNotification
drop_first [] = []
drop_first (p ∷ ps) = ps

unfoldable pub buffer : List PendingNotification → PendingNotification → List PendingNotification
buffer pending p =
    append_list (if leb buffer_limit (length pending) then drop_first pending else pending) (p ∷ [])

unfoldable pub detach_push_stream : StreamableRegistry → String → StreamableRegistry
detach_push_stream s id = elim (get id s.local_state) [
  | none ↦ s
  | some local ↦ with_local s id (record local { push_stream = none })
]

abbrev pub end_stream : StreamableRegistry → Option LocalSessionState → StreamableRegistry
end_stream s none = s
end_stream s (some local) = elim local.push_stream [
  | none ↦ s
  | some res ↦ record s { ended = res ∷ s.ended }
]

abbrev pub drop_local : StreamableRegistry → String → StreamableRegistry
drop_local s id =
    let s' = end_stream s (get id s.local_state) in
    record s' { local_state = delete id s'.local_state }

unfoldable pub delete_id : StreamableRegistry → String → StreamableRegistry
delete_id s id =
    let s' = drop_local s id in
    record s' {
      session_store = (delete_metadata s'.session_store id).0;
      store = delete_session s'.store id;
    }

-- The loop of `reapExpired` over the local states that it began with.
unfoldable pub reap_locals : StreamableRegistry → Map LocalSessionState → StreamableRegistry
reap_locals s [] = s
reap_locals s ((id, local) ∷ rest) =
    let kept = has_id s id in reap_locals (if kept then s else drop_local s id) rest

unfoldable pub reap_expired_ids : StreamableRegistry → ℕ → StreamableRegistry × ℕ
reap_expired_ids s now =
    let (sessions, n) = reap_sessions s.session_store now in
    let s' : StreamableRegistry = record s { session_store = sessions } in
    (reap_locals s' s'.local_state, n)

unfoldable pub trim_store : StreamableRegistry → String → ℕ → StreamableRegistry
trim_store s id now = record s { store = trim s.store id now }

-- `onModuleDestroy`, over the local states that it began with.
unfoldable pub delete_all : StreamableRegistry → Map LocalSessionState → StreamableRegistry
delete_all s [] = s
delete_all s ((id, local) ∷ rest) = delete_all (delete_id s id) rest

-- What `pushNotification` does with a chunk that no local stream took.
unfoldable pub keep_pending :
    StreamableRegistry → String → LocalSessionState → PendingNotification → StreamableRegistry
keep_pending s id local p =
    if s.has_publisher
    then with_local (record s { published = (push_channel_prefix ++ id, p.chunk) ∷ s.published }) id
        local
    else with_local s id
        (record local { pending_notifications = buffer local.pending_notifications p })

module _ (writable : ℕ → String → Bool) where
  -- `res.write(chunk)`; `false` where it throws.
  abbrev pub write_chunk : StreamableRegistry → ℕ → String → StreamableRegistry × Bool
  write_chunk s res chunk =
      if writable res chunk
      then (record s { written = (res, chunk) ∷ s.written }, true)
      else (s, false)

  -- The loop of `attachPushStream` over what is pending.
  unfoldable pub write_pending :
      StreamableRegistry → ℕ → List PendingNotification → StreamableRegistry × Bool
  write_pending s res [] = (s, true)
  write_pending s res (p ∷ ps) =
      let (s', through) = write_chunk s res p.chunk in
      let rest = write_pending s' res ps in if through then rest else (s', false)

  -- The loop of `_replay`.
  unfoldable pub write_replayed : StreamableRegistry → ℕ → List Replayed → StreamableRegistry × Bool
  write_replayed s res [] = (s, true)
  write_replayed s res (gap_event ∷ rs) =
      let (s', through) = write_chunk (record s { gaps = suc s.gaps }) res gap_chunk in
      let rest = write_replayed s' res rs in if through then rest else (s', false)
  write_replayed s res (event e ∷ rs) =
      let (s', through) = write_chunk s res (event_chunk e) in
      let rest = write_replayed s' res rs in if through then rest else (s', false)

  abbrev pub attached :
      StreamableRegistry → String → ℕ → List PendingNotification → StreamableRegistry
  attached s id res pending =
      with_local s id (record { push_stream = some res; pending_notifications = pending })

  unfoldable pub attach_push_stream :
      StreamableRegistry → String → ℕ → Option String → StreamableRegistry × Bool
  attach_push_stream s id res last_event_id =
      if has_id s id
      then (let local = local_of s id in
          let s1 = with_local s id local in
          elim (given last_event_id) [
            | some after_id ↦
                let (s2, replayed) =
                  write_replayed (record s1 { replays = suc s1.replays }) res
                    (read_after s1.store id (some after_id)) in
                if replayed
                then (attached s2 id res local.pending_notifications, true)
                else (s2, false)
            | none ↦
                let (s2, through) = write_pending s1 res local.pending_notifications in
                if through
                then (attached s2 id res [], true)
                else (with_local s2 id (record local { push_stream = none }), false)
          ])
      else (s, false)

  unfoldable pub push_notification :
      StreamableRegistry → String → String → ℕ → StreamableRegistry × Bool
  push_notification s id text now =
      if has_id s id
      then (let s1 = touch s id now in
          let (store, event_id) = append s1.store id push_stream_id text now in
          let s2 : StreamableRegistry = record s1 { store = store } in
          let local = local_of s2 id in
          let p : PendingNotification = record {
            chunk = sse_chunk event_id text;
            event_id = event_id;
          } in
          elim local.push_stream [
            | none ↦ (keep_pending s2 id local p, true)
            | some res ↦
                let (s3, through) = write_chunk s2 res p.chunk in
                if through
                then (with_local s3 id local, true)
                else (keep_pending s3 id (record local { push_stream = none }) p, true)
          ])
      else (s, false)

  -- The event id, or `none` where the write throws.
  unfoldable pub write_response_event :
      StreamableRegistry → String → String → String → ℕ → ℕ → StreamableRegistry × Option String
  write_response_event s id stream_id text res now =
      let (store, event_id) = append s.store id stream_id text now in
      let (s', through) = write_chunk (record s { store = store }) res (sse_chunk event_id text) in
      (s', if through then some event_id else none)

  -- The handler of a message from another replica, for the session that its channel names.
  unfoldable pub deliver : StreamableRegistry → String → String → StreamableRegistry
  deliver s id chunk = elim (get id s.local_state) [
    | none ↦ s
    | some local ↦ elim local.push_stream [
      | none ↦ s
      | some res ↦
          let (s', through) = write_chunk s res chunk in
          if through then s' else with_local s' id (record local { push_stream = none })
    ]
  ]
