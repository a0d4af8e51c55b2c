-- ===== src/Sessions/Streamable/Bounds.antt =====
-- apps/server/src/streamable-http.session-registry.ts: the buffers stay within BUFFER_LIMIT.
use mavio_mcp.Base.{
  ℕ, suc, ◌≤◌, String, Bool, Option, none, some, List, [], ◌∷◌, ◌≡◌, refl, arith, inl, inr,
  Bool-cases, Option-cases, length,
}
use mavio_mcp.Base.Map.{Map, get, AllValues, AllValues-set, AllValues-delete, AllValues-get}
use mavio_mcp.Transport.EventStore.{Replayed, gap_event, event, read_after, append}
use mavio_mcp.Sessions.SessionStore.{reap_sessions}
use mavio_mcp.Sessions.Streamable.{
  PendingNotification, LocalSessionState, StreamableRegistry, buffer_limit, push_stream_id,
  sse_chunk, local_of, with_local, has_id, create, touch, write_chunk, write_pending,
  write_replayed, attach_push_stream, detach_push_stream, keep_pending, push_notification,
  write_response_event, delete_id, reap_locals, reap_expired_ids, trim_store, deliver, given,
  gap_chunk, event_chunk, drop_local, end_stream,
}
use mavio_mcp.Sessions.Streamable.Pushes.{buffer-length}

-- The operations of the registry; a delivery is a message from another replica.
pub data Operation : Type 0 where
  creates : String → ℕ → Operation
  touches : String → ℕ → Operation
  attaches : String → ℕ → Option String → Operation
  detaches : String → Operation
  pushes : String → String → ℕ → Operation
  responds : String → String → String → ℕ → ℕ → Operation
  deletes : String → Operation
  reaps : ℕ → Operation
  trims : String → ℕ → Operation
  delivers : String → String → Operation

abbrev Fits : LocalSessionState → Type 0
Fits local = length local.pending_notifications ≤ buffer_limit

abbrev pub AllFit : StreamableRegistry → Type 0
AllFit s = AllValues Fits s.local_state

local-Fits : (s : StreamableRegistry) (id : String) → AllFit s → Fits (local_of s id)
local-Fits s id h = elim (Option-cases (get id s.local_state)) [
  | inl missing ↦ rw missing (omega arith)
  | inr (local, found) ↦ rw found (AllValues-get Fits id s.local_state local h found)
]

detach-AllFit : (s : StreamableRegistry) (id : String) → AllFit s → AllFit (detach_push_stream s id)
unfolding detach_push_stream
detach-AllFit s id h = elim (Option-cases (get id s.local_state)) [
  | inl missing ↦ rw (detach_push_stream, missing) h
  | inr (local, found) ↦
      rw (detach_push_stream, found)
        (AllValues-set Fits id _ s.local_state (AllValues-get Fits id s.local_state local h found)
          h)
]

end_stream-local :
    (s : StreamableRegistry) (o : Option LocalSessionState)
    → (end_stream s o).local_state ≡ s.local_state
end_stream-local s none = refl
end_stream-local s (some local) = elim (Option-cases local.push_stream) [
  | inl away ↦ rw away refl
  | inr (res, there) ↦ rw there refl
]

drop_local-AllFit : (s : StreamableRegistry) (id : String) → AllFit s → AllFit (drop_local s id)
drop_local-AllFit s id h =
    rw (AllFit, end_stream-local s (get id s.local_state))
      (AllValues-delete Fits id s.local_state h)

reap_locals-AllFit :
    (rest : Map LocalSessionState) (s : StreamableRegistry) → AllFit s → AllFit (reap_locals s rest)
unfolding reap_locals
reap_locals-AllFit [] s h = h
reap_locals-AllFit ((id, local) ∷ rest) s h = elim (Bool-cases (has_id s id)) [
  | inl kept ↦ rw (reap_locals, kept) (reap_locals-AllFit rest s h)
  | inr gone ↦
      rw (reap_locals, gone) (reap_locals-AllFit rest (drop_local s id) (drop_local-AllFit s id h))
]

module _ (writable : ℕ → String → Bool) where
  unfoldable pub step : StreamableRegistry → Operation → StreamableRegistry
  step s (creates random now) = (create s random now).0
  step s (touches id now) = touch s id now
  step s (attaches id res last) = (attach_push_stream writable s id res last).0
  step s (detaches id) = detach_push_stream s id
  step s (pushes id text now) = (push_notification writable s id text now).0
  step s (responds id stream_id text res now) =
      (write_response_event writable s id stream_id text res now).0
  step s (deletes id) = delete_id s id
  step s (reaps now) = (reap_expired_ids s now).0
  step s (trims id now) = trim_store s id now
  step s (delivers id chunk) = deliver writable s id chunk

  unfoldable pub run : StreamableRegistry → List Operation → StreamableRegistry
  run s [] = s
  run s (op ∷ ops) = run (step s op) ops

  write_chunk-local :
      (s : StreamableRegistry) (res : ℕ) (chunk : String)
      → (write_chunk writable s res chunk).0.local_state ≡ s.local_state
  write_chunk-local s res chunk = elim (Bool-cases (writable res chunk)) [
    | inl through ↦ rw through refl
    | inr broken ↦ rw broken refl
  ]

  write_pending-local :
      (s : StreamableRegistry) (res : ℕ) (ps : List PendingNotification)
      → (write_pending writable s res ps).0.local_state ≡ s.local_state
  unfolding write_pending
  write_pending-local s res [] = refl
  write_pending-local s res (p ∷ ps) = elim (Bool-cases (writable res p.chunk)) [
    | inl through ↦ rw (write_pending, through) (write_pending-local _ res ps)
    | inr broken ↦ rw (write_pending, broken) refl
  ]

  write_replayed-local :
      (res : ℕ) (rs : List Replayed) (s : StreamableRegistry)
      → (write_replayed writable s res rs).0.local_state ≡ s.local_state
  unfolding write_replayed
  write_replayed-local res [] s = refl
  write_replayed-local res (gap_event ∷ rs) s = elim (Bool-cases (writable res gap_chunk)) [
    | inl through ↦ rw (write_replayed, through) (write_replayed-local res rs _)
    | inr broken ↦ rw (write_replayed, broken) refl
  ]
  write_replayed-local res (event e ∷ rs) s = elim (Bool-cases (writable res (event_chunk e))) [
    | inl through ↦ rw (write_replayed, through) (write_replayed-local res rs _)
    | inr broken ↦ rw (write_replayed, broken) refl
  ]

  with_local-AllFit :
      (s : StreamableRegistry) (id : String) (local : LocalSessionState)
      → Fits local
      → AllFit s
      → AllFit (with_local s id local)
  with_local-AllFit s id local here h = AllValues-set Fits id local s.local_state here h

  attach-AllFit :
      (s : StreamableRegistry) (id : String) (res : ℕ) (last : Option String)
      → AllFit s
      → AllFit (attach_push_stream writable s id res last).0
  unfolding attach_push_stream
  attach-AllFit s id res last h =
      let local : LocalSessionState = local_of s id in
      let fits : Fits local = local-Fits s id h in
      let s1 : StreamableRegistry = with_local s id local in
      let h1 : AllFit s1 = with_local-AllFit s id local fits h in
      elim (Bool-cases (has_id s id)) [
        | inr unknown ↦ rw (attach_push_stream, unknown) h
        | inl here ↦ elim (Option-cases (given last)) [
          | inl fresh ↦
              let same = write_pending-local s1 res local.pending_notifications in
              elim (Bool-cases (write_pending writable s1 res local.pending_notifications).1) [
                | inl through ↦
                    rw (attach_push_stream, here, fresh, through)
                      (rw (AllFit, same) (AllValues-set Fits id _ s1.local_state (omega arith) h1))
                | inr broken ↦
                    rw (attach_push_stream, here, fresh, broken)
                      (rw (AllFit, same) (AllValues-set Fits id _ s1.local_state fits h1))
              ]
          | inr (after_id, resumed) ↦
              let s2 : StreamableRegistry = record s1 { replays = suc s1.replays } in
              let rs : List Replayed = read_after s1.store id (some after_id) in
              let same = write_replayed-local res rs s2 in
              elim (Bool-cases (write_replayed writable s2 res rs).1) [
                | inl through ↦
                    rw (attach_push_stream, here, resumed, through)
                      (rw (AllFit, same) (AllValues-set Fits id _ s1.local_state fits h1))
                | inr broken ↦ rw (attach_push_stream, here, resumed, broken) (rw (AllFit, same) h1)
              ]
        ]
      ]

  keep_pending-AllFit :
      (s : StreamableRegistry) (id : String) (local : LocalSessionState) (p : PendingNotification)
      → Fits local
      → AllFit s
      → AllFit (keep_pending s id local p)
  unfolding keep_pending
  keep_pending-AllFit s id local p fits h = elim (Bool-cases s.has_publisher) [
    | inl told ↦ rw (keep_pending, told) (AllValues-set Fits id local s.local_state fits h)
    | inr alone ↦
        rw (keep_pending, alone)
          (AllValues-set Fits id _ s.local_state (buffer-length local.pending_notifications p fits)
            h)
  ]

  push-AllFit :
      (s : StreamableRegistry) (id text : String) (now : ℕ)
      → AllFit s
      → AllFit (push_notification writable s id text now).0
  unfolding push_notification touch
  push-AllFit s id text now h =
      let local : LocalSessionState = local_of s id in
      let fits : Fits local = local-Fits s id h in
      elim (Bool-cases (has_id s id)) [
        | inr unknown ↦ rw (push_notification, unknown) h
        | inl here ↦ elim (Option-cases local.push_stream) [
          | inl away ↦ rw (push_notification, here, away) (keep_pending-AllFit _ id local _ fits h)
          | inr (res, there) ↦
              let chunk : String = sse_chunk (append s.store id push_stream_id text now).1 text in
              elim (Bool-cases (writable res chunk)) [
                | inl through ↦
                    rw (push_notification, here, there, through)
                      (AllValues-set Fits id local s.local_state fits h)
                | inr broken ↦
                    rw (push_notification, here, there, broken)
                      (keep_pending-AllFit _ id (record local { push_stream = none }) _ fits h)
              ]
        ]
      ]

  write_response_event-AllFit :
      (s : StreamableRegistry) (id stream_id text : String) (res now : ℕ)
      → AllFit s
      → AllFit (write_response_event writable s id stream_id text res now).0
  unfolding write_response_event
  write_response_event-AllFit s id stream_id text res now h =
      rw (AllFit, write_response_event, write_chunk-local) h

  deliver-AllFit :
      (s : StreamableRegistry) (id chunk : String) → AllFit s → AllFit (deliver writable s id chunk)
  unfolding deliver
  deliver-AllFit s id chunk h = elim (Option-cases (get id s.local_state)) [
    | inl missing ↦ rw (deliver, missing) h
    | inr (local, found) ↦ elim (Option-cases local.push_stream) [
      | inl away ↦ rw (deliver, found, away) h
      | inr (res, there) ↦ elim (Bool-cases (writable res chunk)) [
        | inl through ↦ rw (deliver, found, there, through) h
        | inr broken ↦
            rw (deliver, found, there, broken)
              (AllValues-set Fits id _ s.local_state
                (AllValues-get Fits id s.local_state local h found) h)
      ]
    ]
  ]

  step-AllFit : (s : StreamableRegistry) (op : Operation) → AllFit s → AllFit (step s op)
  unfolding step create touch trim_store delete_id reap_expired_ids
  step-AllFit s (creates random now) h = AllValues-set Fits _ _ s.local_state (omega arith) h
  step-AllFit s (touches id now) h = h
  step-AllFit s (attaches id res last) h = attach-AllFit s id res last h
  step-AllFit s (detaches id) h = detach-AllFit s id h
  step-AllFit s (pushes id text now) h = push-AllFit s id text now h
  step-AllFit s (responds id stream_id text res now) h =
      write_response_event-AllFit s id stream_id text res now h
  step-AllFit s (deletes id) h = drop_local-AllFit s id h
  step-AllFit s (reaps now) h =
      reap_locals-AllFit s.local_state
        (record s { session_store = (reap_sessions s.session_store now).0 }) h
  step-AllFit s (trims id now) h = h
  step-AllFit s (delivers id chunk) h = deliver-AllFit s id chunk h

  -- Whatever operations run, and whichever writes go through, no session has more than
  -- BUFFER_LIMIT pending notifications.
  pub run-AllFit : (s : StreamableRegistry) (ops : List Operation) → AllFit s → AllFit (run s ops)
  unfolding run
  run-AllFit s [] h = h
  run-AllFit s (op ∷ ops) h = run-AllFit (step s op) ops (step-AllFit s op h)
