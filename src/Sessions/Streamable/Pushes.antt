-- ===== src/Sessions/Streamable/Pushes.antt =====
-- apps/server/src/streamable-http.session-registry.ts: notifications that are pushed while the
-- client of a session is away, and what the client is sent when it comes back.
use mathlib.Core.List.{◌++◌}
use mavio_mcp.Base.{
  drop, ℕ, suc, ◌-◌, ◌≤◌, String, Bool, true, false, none, some, List, [], ◌∷◌, leb, ◌≡◌, refl, ap,
  sym, ◌∙◌, arith, inl, inr, Bool-cases, Option-cases, length, length-append,
}
use mavio_mcp.Base.Map.{get, has, get-set_self, has-set_self}
use mavio_mcp.Transport.EventStore.{MemoryEventStore, append}
use mavio_mcp.Sessions.SessionStore.{SessionStore, touch_session}
use mavio_mcp.Sessions.Streamable.{
  PendingNotification, LocalSessionState, StreamableRegistry, buffer_limit, push_stream_id,
  sse_chunk, local_or_new, local_of, with_local, has_id, touch, write_pending, attach_push_stream,
  buffer, keep_pending, push_notification,
}

pub record Push : Type 0 where
  pub text : String
  pub now : ℕ

-- The notifications that a list of pushes makes, as the event store numbers them.
unfoldable pub notifications : MemoryEventStore → String → List Push → List PendingNotification
notifications store id [] = []
notifications store id (p ∷ ps) =
    let (store', event_id) = append store id push_stream_id p.text p.now in
    record { chunk = sse_chunk event_id p.text; event_id = event_id } ∷ notifications store' id ps

-- The last `n` of a list.
abbrev pub newest : {A : Type 0} → ℕ → List A → List A
newest n xs = drop (length xs - n) xs

unfoldable pub buffer_all :
    List PendingNotification → List PendingNotification → List PendingNotification
buffer_all pending [] = pending
buffer_all pending (p ∷ ps) = buffer_all (buffer pending p) ps

snoc-append : {A : Type 0} (xs : List A) (a : A) (ys : List A) → (xs ++ a ∷ []) ++ ys ≡ xs ++ a ∷ ys
snoc-append [] a ys = refl
snoc-append (x ∷ xs) a ys = ap (λ zs. x ∷ zs) (snoc-append xs a ys)

append_nil : {A : Type 0} (xs : List A) → xs ++ [] ≡ xs
append_nil [] = refl
append_nil (x ∷ xs) = ap (λ zs. x ∷ zs) (append_nil xs)

newest-all : {A : Type 0} (n : ℕ) (xs : List A) → length xs ≤ n → newest n xs ≡ xs
newest-all n xs h = let none_over : length xs - n ≡ 0 = omega arith in rw none_over refl

newest-cons :
    {A : Type 0} (n : ℕ) (x : A) (xs : List A) → n ≤ length xs → newest n (x ∷ xs) ≡ newest n xs
newest-cons n x xs h =
    let one_over : suc (length xs) - n ≡ suc (length xs - n) = omega arith in rw one_over refl

pub buffer-length :
    (pending : List PendingNotification) (p : PendingNotification)
    → length pending ≤ buffer_limit
    → length (buffer pending p) ≤ buffer_limit
unfolding buffer
buffer-length [] p h = ground arith
buffer-length (q ∷ qs) p h =
    ground (arith, length-append (q ∷ qs) (p ∷ []), length-append qs (p ∷ []))

-- The buffer, and what comes after it, is the newest of everything that was put in.
buffer-newest :
    (pending ps : List PendingNotification) (p : PendingNotification)
    → newest buffer_limit (buffer pending p ++ ps) ≡ newest buffer_limit (pending ++ p ∷ ps)
unfolding buffer
buffer-newest [] ps p = refl
buffer-newest (q ∷ qs) ps p = elim (Bool-cases (leb buffer_limit (length (q ∷ qs)))) [
  | inl full ↦
      rw (buffer, full)
        (ap (newest buffer_limit) (snoc-append qs p ps)
          ∙ sym (
              newest-cons buffer_limit q (qs ++ p ∷ ps)
                (ground (arith, length-append qs (p ∷ ps)))))
  | inr room ↦ rw (buffer, room) (ap (newest buffer_limit) (snoc-append (q ∷ qs) p ps))
]

buffer_all-newest :
    (pending ps : List PendingNotification)
    → length pending ≤ buffer_limit
    → buffer_all pending ps ≡ newest buffer_limit (pending ++ ps)
unfolding buffer_all
buffer_all-newest pending [] h =
    sym (newest-all buffer_limit (pending ++ []) (rw (append_nil pending) h) ∙ append_nil pending)
buffer_all-newest pending (p ∷ ps) h =
    buffer_all-newest (buffer pending p) ps (buffer-length pending p h) ∙ buffer-newest pending ps p

module _ (writable : ℕ → String → Bool) where
  unfoldable pub push_all : StreamableRegistry → String → List Push → StreamableRegistry
  push_all s id [] = s
  push_all s id (p ∷ ps) = push_all (push_notification writable s id p.text p.now).0 id ps

  -- The session is there, has no push stream, and no other replica is told.
  abbrev pub IsAway : StreamableRegistry → String → Type 0
  IsAway s id =
      (has_id s id ≡ true) × (s.has_publisher ≡ false) × ((local_of s id).push_stream ≡ none)

  touch-has :
      (sessions : SessionStore) (id : String) (now : ℕ)
      → has id sessions ≡ true
      → has id (touch_session sessions id now).0 ≡ true
  unfolding touch_session
  touch-has sessions id now h = elim (Option-cases (get id sessions)) [
    | inl missing ↦ rw (touch_session, missing) h
    | inr (m, found) ↦
        rw (touch_session, found) (has-set_self id (record m { last_seen_at = now }) sessions)
  ]

  push-IsAway :
      (s : StreamableRegistry) (id : String) (p : Push)
      → IsAway s id
      → let s' = (push_notification writable s id p.text p.now).0 in
        let (store, event_id) = append s.store id push_stream_id p.text p.now in
        IsAway s' id
        × (s'.store ≡ store)
        × (s'.written ≡ s.written)
        × ((local_of s' id).pending_notifications
            ≡ buffer
                (local_of s id).pending_notifications
                (record { chunk = sse_chunk event_id p.text; event_id = event_id }))
  unfolding push_notification touch keep_pending
  push-IsAway s id p (here, alone, away) =
      rw (push_notification, here, away, keep_pending, alone)
        (
          (
            touch-has s.session_store id p.now here,
            refl,
            ap (λ o. (local_or_new o).push_stream) (get-set_self id _ s.local_state) ∙ away,
          ),
          refl,
          refl,
          ap (λ o. (local_or_new o).pending_notifications) (get-set_self id _ s.local_state),
        )

  push_all-IsAway :
      (s : StreamableRegistry) (id : String) (ps : List Push)
      → IsAway s id
      → let s' = push_all s id ps in
        IsAway s' id
        × (s'.written ≡ s.written)
        × ((local_of s' id).pending_notifications
            ≡ buffer_all (local_of s id).pending_notifications (notifications s.store id ps))
  unfolding push_all buffer_all notifications
  push_all-IsAway s id [] h = (h, refl, refl)
  push_all-IsAway s id (p ∷ ps) h =
      let s' : StreamableRegistry = (push_notification writable s id p.text p.now).0 in
      let (h', stored, quiet, buffered) = push-IsAway s id p h in
      let (h'', quiet', rest) = push_all-IsAway s' id ps h' in
      (
        h'',
        quiet' ∙ quiet,
        rest
            ∙ ap (λ st. buffer_all (local_of s' id).pending_notifications (notifications st id ps))
                stored
            ∙ ap
                (λ m.
                  buffer_all m
                    (notifications (append s.store id push_stream_id p.text p.now).0 id ps))
                buffered,
      )

  -- The log of writes, newest first, after the chunks of a list are written in order.
  unfoldable pub logged : ℕ → List PendingNotification → List (ℕ × String) → List (ℕ × String)
  logged res [] log = log
  logged res (p ∷ ps) log = logged res ps ((res, p.chunk) ∷ log)

  write_pending-all :
      (res : ℕ)
      → ((chunk : String) → writable res chunk ≡ true)
      → (s : StreamableRegistry) (ps : List PendingNotification)
      → write_pending writable s res ps ≡ (record s { written = logged res ps s.written }, true)
  unfolding write_pending logged
  write_pending-all res w s [] = refl
  write_pending-all res w s (p ∷ ps) =
      rw (write_pending, w p.chunk)
        (write_pending-all res w (record s { written = (res, p.chunk) ∷ s.written }) ps)

  attach-all :
      (s : StreamableRegistry) (id : String) (res : ℕ)
      → has_id s id ≡ true
      → ((chunk : String) → writable res chunk ≡ true)
      → let (s', ok) = attach_push_stream writable s id res none in
        (ok ≡ true)
        × (s'.written ≡ logged res (local_of s id).pending_notifications s.written)
        × (local_of s' id ≡ record { push_stream = some res; pending_notifications = [] })
  unfolding attach_push_stream
  attach-all s id res here w =
      let local : LocalSessionState = local_of s id in
      let sent = write_pending-all res w (with_local s id local) local.pending_notifications in
      rw (attach_push_stream, here, sent) (refl, refl, ap local_or_new (get-set_self id _ _))

  -- A client that is away while notifications are pushed to its session, and then attaches a
  -- response that takes every write, without Last-Event-ID, is sent what was pending and pushed,
  -- the newest BUFFER_LIMIT of it, once and in order. Nothing is pending then. No more than
  -- BUFFER_LIMIT may be pending before.
  pub attach-after-push_all :
      (s : StreamableRegistry) (id : String) (ps : List Push) (res : ℕ)
      → IsAway s id
      → length (local_of s id).pending_notifications ≤ buffer_limit
      → ((chunk : String) → writable res chunk ≡ true)
      → let (s', ok) = attach_push_stream writable (push_all s id ps) id res none in
        let due =
          newest buffer_limit
            ((local_of s id).pending_notifications ++ notifications s.store id ps) in
        (ok ≡ true)
        × (s'.written ≡ logged res due s.written)
        × (local_of s' id ≡ record { push_stream = some res; pending_notifications = [] })
  attach-after-push_all s id ps res h le w =
      let ((here, alone, away), quiet, pending) = push_all-IsAway s id ps h in
      let (ok, written, attached_) = attach-all (push_all s id ps) id res here w in
      (
        ok,
        written
            ∙ ap (λ m. logged res m (push_all s id ps).written)
                (pending
                  ∙ buffer_all-newest (local_of s id).pending_notifications
                      (notifications s.store id ps) le)
            ∙ ap (logged res _) quiet,
        attached_,
      )
