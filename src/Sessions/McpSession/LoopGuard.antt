-- ===== src/Sessions/McpSession/LoopGuard.antt =====
-- apps/server/src/mcp-session.store.ts: the loop guard stops a client that repeats one call.
use Prim.Native.String
use mavio_mcp.Base.{
  ℕ, suc, ◌+◌, ◌-◌, ◌≤◌, ◌≡◌, refl, ◌≢◌, String, true, false, Option, some, List, [], ◌∷◌, map,
  arith, inl, inr, ◌⊎◌, Bool-cases, Option-cases, ltb, sym, ◌∙◌, ap,
}
use mavio_mcp.Base.Map.{get, set, get-set_self, get-set_ne}
use mavio_mcp.Base.Text.{split_last_colon, split_last_colon-ne-none}
use mavio_mcp.Sessions.McpSession.{
  McpSessionRecord, McpSessionStore, LoopBucket, Verdict, is_allowed, touched, above, later_than,
  buckets, count_in_bucket, loop_key, check_loop, check_rate, pre_call,
}
use mavio_mcp.Sessions.McpSession.Limits.{Call, count_allowed, SameOptions, pre_call-records}

-- The bucket of a key, if there is one.
abbrev pub bucket : McpSessionStore → String → String → Option LoopBucket
bucket s id key = get key (buckets s id)

bucket-count_in_bucket :
    (s : McpSessionStore) (id key j : String) (now window : ℕ)
    → bucket (count_in_bucket s id key now window).0 id j
      ≡ get j (set key (count_in_bucket s id key now window).1 (buckets s id))
unfolding count_in_bucket
bucket-count_in_bucket s id key j now window = rw (get-set_self id _ s.loop_state)

count_in_bucket-next :
    (s : McpSessionStore) (id key : String) (now window : ℕ) (b : LoopBucket)
    → bucket s id key ≡ some b
    → now ≤ b.window_start + window
    → (count_in_bucket s id key now window).1 ≡ record b { count = suc b.count }
unfolding count_in_bucket
count_in_bucket-next s id key now window b found inside =
    let open_window : ltb (b.window_start + window) now ≡ false = ground arith in
    rw (found, open_window)

count_in_bucket-options :
    (s : McpSessionStore) (id key : String) (now window : ℕ)
    → SameOptions s (count_in_bucket s id key now window).0
unfolding count_in_bucket
count_in_bucket-options s id key now window = record {
  limits = refl;
  loop_enabled = refl;
  loop_max_n = refl;
  loop_window_ms = refl;
}

module _ (sha1_hex : String → String) (id tool_name args_json : String) where
  abbrev key : String
  key = loop_key sha1_hex tool_name args_json

  -- The key of the rate limit is no key of the loop guard, since it has no colon.
  rate_ne_key : ◌≢◌ {A = String} "__rpm__" key
  unfolding loop_key split_last_colon
  rate_ne_key e =
      split_last_colon-ne-none tool_name (String.slice (sha1_hex args_json) 0 8)
        (sym (ap split_last_colon e))

  -- What one more call does to the bucket of the call: it is refused and not counted, or counted
  -- and refused from the limit on.
  abbrev Counted : LoopBucket → ℕ → McpSessionStore → Verdict → Type 0
  Counted b limit s v =
      ((bucket s id key ≡ some b) × (is_allowed v ≡ false))
      ⊎ ((bucket s id key ≡ some (record b { count = suc b.count }))
          × (limit ≤ suc b.count → is_allowed v ≡ false))

  check_loop-Counted :
      (s : McpSessionStore) (now : ℕ) (b : LoopBucket)
      → s.loop_enabled ≡ true
      → bucket s id key ≡ some b
      → now ≤ b.window_start + s.loop_window_ms
      → Counted b s.loop_max_n
          (check_loop sha1_hex s id tool_name args_json now).0
          (check_loop sha1_hex s id tool_name args_json now).1
  unfolding check_loop
  check_loop-Counted s now b enabled found inside =
      let next = count_in_bucket-next s id key now s.loop_window_ms b found inside in
      let stored =
        bucket-count_in_bucket s id key key now s.loop_window_ms
        ∙ get-set_self key _ (buckets s id) in
      inr (ground (arith, next, stored), λ over. ground (arith, next))

  check_rate-Counted :
      (s : McpSessionStore) (now : ℕ) (b : LoopBucket)
      → s.loop_enabled ≡ true
      → bucket s id key ≡ some b
      → now ≤ b.window_start + s.loop_window_ms
      → Counted b s.loop_max_n
          (check_rate sha1_hex s id tool_name args_json now).0
          (check_rate sha1_hex s id tool_name args_json now).1
  unfolding check_rate
  check_rate-Counted s now b enabled found inside =
      elim (Option-cases s.limits.max_calls_per_minute) [
        | inl unlimited ↦
            rw (unlimited, check_rate) (check_loop-Counted s now b enabled found inside)
        | inr (limit, limited) ↦
            let o = count_in_bucket-options s id "__rpm__" now 60_000 in
            let s' = (count_in_bucket s id "__rpm__" now 60_000).0 in
            let found' : bucket s' id key ≡ some b =
              bucket-count_in_bucket s id "__rpm__" key now 60_000
              ∙ get-set_ne _ (buckets s id) rate_ne_key
              ∙ found in
            elim (Bool-cases (ltb limit (count_in_bucket s id "__rpm__" now 60_000).1.count)) [
              | inl over ↦ rw (limited, check_rate, over) (inl (found', refl))
              | inr under ↦
                  rw (limited, check_rate, under)
                    (rw o.loop_max_n at (
                      check_loop-Counted s' now b (rw o.loop_enabled enabled) found'
                        (rw o.loop_window_ms inside)))
            ]
      ]

  abbrev call : ℕ → Call
  call now = record { tool_name = tool_name; args_json = args_json; now = now }

  pre_call-Counted :
      (s : McpSessionStore) (now : ℕ) (b : LoopBucket) (r : McpSessionRecord)
      → get id s.records ≡ some r
      → s.loop_enabled ≡ true
      → bucket s id key ≡ some b
      → now ≤ b.window_start + s.loop_window_ms
      → Counted b s.loop_max_n
          (pre_call sha1_hex s id tool_name args_json now).0
          (pre_call sha1_hex s id tool_name args_json now).1
  unfolding pre_call
  pre_call-Counted s now b r known enabled found inside =
      let r' = touched r args_json now in
      let s' : McpSessionStore = record s { records = set id r' s.records } in
      elim (Bool-cases (above r'.call_count s.limits.max_calls)) [
        | inl many ↦ rw (known, pre_call, many) (inl (found, refl))
        | inr few ↦ elim (Bool-cases (above now (later_than r'.created_at s.limits.max_duration))) [
          | inl late ↦ rw (known, pre_call, few, late) (inl (found, refl))
          | inr early ↦
              rw (known, pre_call, few, early) (check_rate-Counted s' now b enabled found inside)
        ]
      ]

  -- All the readings lie in the window of the bucket.
  abbrev Within : ℕ → List ℕ → Type 0
  Within limit [] = Unit
  Within limit (t ∷ ts) = (t ≤ limit) × Within limit ts

  -- Of the calls that repeat one tool with the same arguments within the window of their bucket, no
  -- more are allowed than it takes to come one short of the limit of the loop guard.
  pub count_allowed-repeated :
      (s : McpSessionStore) (ts : List ℕ) (b : LoopBucket) (r : McpSessionRecord)
      → get id s.records ≡ some r
      → s.loop_enabled ≡ true
      → bucket s id key ≡ some b
      → Within (b.window_start + s.loop_window_ms) ts
      → count_allowed sha1_hex s id (map call ts) ≤ s.loop_max_n - 1 - b.count
  unfolding count_allowed
  count_allowed-repeated s [] b r known enabled found within = omega arith
  count_allowed-repeated s (t ∷ ts) b r known enabled found (first, within) =
      let s' = (pre_call sha1_hex s id tool_name args_json t).0 in
      let (records, o) = pre_call-records sha1_hex s id (call t) r known in
      let r' = touched r args_json t in
      let known' : get id s'.records ≡ some r' = rw records (get-set_self id r' s.records) in
      let b' : LoopBucket = record b { count = suc b.count } in
      let within' : Within (b.window_start + s'.loop_window_ms) ts = rw o.loop_window_ms within in
      elim (pre_call-Counted s t b r known enabled found first) [
        | inl (same, no_more) ↦
            let rest =
              count_allowed-repeated s' ts b r' known' (rw o.loop_enabled enabled) same within' in
            rw no_more (rw o.loop_max_n at rest)
        | inr (next, limit) ↦
            let rest =
              count_allowed-repeated s' ts b' r' known' (rw o.loop_enabled enabled) next within' in
            ground (arith, rest, o.loop_max_n, limit)
      ]
