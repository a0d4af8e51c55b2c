-- ===== src/Access/Windows.antt =====
-- packages/cache/src/rate-limit.ts and apps/server/src/rate-limit.interceptor.ts: `RateLimiter` and
-- the interceptor. `Counters` is the pipeline of INCR and EXPIRE on Redis; times are in milliseconds.
use Prim.Native.String.{◌++◌}
use mavio_mcp.Base.{
  ℕ, zero, suc, ◌+◌, ◌-◌, ◌*◌, ◌/◌, ◌≤◌, ◌<◌, String, Bool, true, false, Option, none, some, List,
  ◌≡◌, ◌≢◌, sym, ap, ◌∙◌, inl, inr, arith, eq_iff, Bool-cases, str_eq, leb, if◌then◌else◌,
}
use mathlib.Core.Path.{subst}
use mavio_mcp.Base.Text.{show}
use mavio_mcp.Access.{HttpRequest}

pub record RateLimitResult : Type 0 where
  pub allowed : Bool
  pub remaining : ℕ
  pub reset_at : ℕ

-- INCR and EXPIRE in one pipeline: the counter after it, where the store answers.
pub record Counters (W : Type 0) : Type 0 where
  pub incr_expire : W → ℕ → String → ℕ → W × Option ℕ

abbrev pub bucket_key : String → ℕ → String
bucket_key scope bucket = "mavio:rl:" ++ (scope ++ (":" ++ show bucket))

abbrev reply_count : Option ℕ → ℕ
reply_count none = 0
reply_count (some n) = n

abbrev pub take_text : ℕ → String → String
take_text zero s = ""
take_text (suc n) String.[] = ""
take_text (suc n) (String.◌∷◌ c s) = String.◌∷◌ c (take_text n s)

-- How the interceptor ends: with the handler, after a check or without one, or with status 429.
pub data Passage : Type 0 where
  handled : Option RateLimitResult → Passage
  too_many_requests : RateLimitResult → Passage

abbrev pub passes : Passage → Bool
passes (handled r) = true
passes (too_many_requests r) = false

abbrev pub verdict : RateLimitResult → Passage
verdict result = if result.allowed then handled (some result) else too_many_requests result

abbrev pub window_seconds : ℕ
window_seconds = 60

-- `authorization ?? ip ?? "anon"`, its first 128 characters.
abbrev pub scope_of : HttpRequest → String
scope_of req =
    take_text 128
      (elim req.authorization [ some a ↦ a | none ↦ elim req.ip [ some ip ↦ ip | none ↦ "anon" ] ])

module _ {W : Type 0} (counters : Counters W) where
  unfoldable pub check : W → String → ℕ → ℕ → ℕ → W × RateLimitResult
  check w scope limit bucket_seconds now =
      let bucket = (now / 1000) / bucket_seconds in
      let (w', reply) = counters.incr_expire w now (bucket_key scope bucket) bucket_seconds in
      (
        w',
        record {
          allowed = leb (reply_count reply) limit;
          remaining = limit - reply_count reply;
          reset_at = (bucket + 1) * bucket_seconds * 1000;
        },
      )

  unfoldable pub intercept : ℕ → W → HttpRequest → ℕ → W × Passage
  unfolding check
  intercept zero w req now = (w, handled none)
  intercept (suc n) w req now =
      let (w', result) = check w (scope_of req) (suc n) window_seconds now in (w', verdict result)

  -- How many of the requests under one key the interceptor lets pass, in the order of the list.
  unfoldable pub passed : String → ℕ → ℕ → W → List (HttpRequest × ℕ) → ℕ
  unfolding intercept
  passed key bucket limit w List.[] = 0
  passed key bucket limit w (List.◌∷◌ (req, now) rs) =
      let (w', passage) = intercept limit w req now in
      let rest = passed key bucket limit w' rs in
      if str_eq (bucket_key (scope_of req) bucket) key
      then if passes passage then suc rest else rest
      else rest

-- The requests under one key.
unfoldable pub asked : String → ℕ → List (HttpRequest × ℕ) → ℕ
asked key bucket List.[] = 0
asked key bucket (List.◌∷◌ (req, now) rs) =
    let rest = asked key bucket rs in
    if str_eq (bucket_key (scope_of req) bucket) key then suc rest else rest

-- Requests in the order of their times, all in one window of the clock.
abbrev pub InWindow : ℕ → ℕ → List (HttpRequest × ℕ) → Type 0
InWindow bucket from List.[] = Unit
InWindow bucket from (List.◌∷◌ (req, now) rs) =
    (from ≤ now) × ((now / 1000) / window_seconds ≡ bucket) × InWindow bucket now rs

-- What Redis documents of INCR and EXPIRE, where it answers: a counter that is not there counts
-- as 0, a counter is kept until its time to live is over, and no other counter changes.
pub record CounterLaws {W : Type 0} (counters : Counters W) (value : W → ℕ → String → ℕ)
    : Type 0 where
  pub replies :
      (w : W) (now : ℕ) (key : String) (ttl : ℕ)
      → (counters.incr_expire w now key ttl).1 ≡ some (suc (value w now key))
  pub keeps :
      (w : W) (now t : ℕ) (key : String) (ttl : ℕ)
      → now ≤ t
      → t < now + ttl * 1000
      → value (counters.incr_expire w now key ttl).0 t key ≡ suc (value w now key)
  pub frames :
      (w : W) (now t : ℕ) (key other : String) (ttl : ℕ)
      → key ≢ other
      → value (counters.incr_expire w now key ttl).0 t other ≡ value w t other

-- The smaller one.
abbrev pub min : ℕ → ℕ → ℕ
min m n = if leb m n then m else n

passes-verdict : (r : RateLimitResult) → passes (verdict r) ≡ r.allowed
passes-verdict r = elim (Bool-cases r.allowed) [
  | inl let_through ↦ simp let_through
  | inr stopped ↦ simp stopped
]

module _ {W : Type 0} (counters : Counters W) (value : W → ℕ → String → ℕ)
    (laws : CounterLaws counters value) (key : String) (bucket n : ℕ) where
  -- The counter of the key has one value from a time on, in the window.
  abbrev Holds : W → ℕ → ℕ → Type 0
  Holds w from c = (t : ℕ) → from ≤ t → (t / 1000) / window_seconds ≡ bucket → value w t key ≡ c

  abbrev after : W → HttpRequest → ℕ → W
  after w req now = (intercept counters (suc n) w req now).0

  after-Holds-own :
      (w : W) (req : HttpRequest) (from now c : ℕ)
      → Holds w from c
      → from ≤ now
      → (now / 1000) / window_seconds ≡ bucket
      → bucket_key (scope_of req) bucket ≡ key
      → Holds (after w req now) now (suc c)
  unfolding intercept
  after-Holds-own w req from now c holds le inside own t later within =
      subst
        (λ k.
          value (counters.incr_expire w now (bucket_key (scope_of req) ((now / 1000) / 60)) 60).0 t
            k
          ≡ suc c)
        (ap (bucket_key (scope_of req)) inside ∙ own)
        (laws.keeps w now t (bucket_key (scope_of req) ((now / 1000) / 60)) 60 later
            (omega (arith, inside, within))
          ∙ ap suc (
              ap (value w now) (ap (bucket_key (scope_of req)) inside ∙ own) ∙ holds now le inside))

  after-Holds-other :
      (w : W) (req : HttpRequest) (from now c : ℕ)
      → Holds w from c
      → from ≤ now
      → (now / 1000) / window_seconds ≡ bucket
      → bucket_key (scope_of req) bucket ≢ key
      → Holds (after w req now) now c
  unfolding intercept
  after-Holds-other w req from now c holds le inside other t later within =
      laws.frames w now t (bucket_key (scope_of req) ((now / 1000) / 60)) key 60
        (λ same. other (sym (ap (bucket_key (scope_of req)) inside) ∙ same))
      ∙ holds t (omega (arith, le, later)) within

  -- Whether a request under the key passes.
  passes-own :
      (w : W) (req : HttpRequest) (from now c : ℕ)
      → Holds w from c
      → from ≤ now
      → (now / 1000) / window_seconds ≡ bucket
      → bucket_key (scope_of req) bucket ≡ key
      → passes (intercept counters (suc n) w req now).1 ≡ leb (suc c) (suc n)
  unfolding intercept
  passes-own w req from now c holds le inside own =
      passes-verdict (check counters w (scope_of req) (suc n) 60 now).1
      ∙ ap (λ reply. leb (reply_count reply) (suc n))
          (laws.replies w now (bucket_key (scope_of req) ((now / 1000) / 60)) 60
            ∙ ap (λ c. some (suc c))
                (ap (value w now) (ap (bucket_key (scope_of req)) inside ∙ own)
                  ∙ holds now le inside))

  passed-from :
      (w : W) (from c : ℕ) (rs : List (HttpRequest × ℕ))
      → Holds w from c
      → InWindow bucket from rs
      → passed counters key bucket (suc n) w rs ≡ min (suc n - c) (asked key bucket rs)
  unfolding passed asked
  passed-from w from c List.[] holds inside = ground arith
  passed-from w from c (List.◌∷◌ (req, now) rs) holds (le, here, later) =
      elim (Bool-cases (str_eq (bucket_key (scope_of req) bucket) key)) [
        | inl own ↦
            let same = (eq_iff (bucket_key (scope_of req) bucket) key).0 own in
            let ih =
              passed-from (after w req now) now (suc c) rs
                (after-Holds-own w req from now c holds le here same) later in
            let verdict_is = passes-own w req from now c holds le here same in
            ground (arith, own, ih, verdict_is)
        | inr other ↦ rw other (
            passed-from (after w req now) now c rs
              (after-Holds-other w req from now c holds le here (λ same.
                absurd (cc (other, (eq_iff (bucket_key (scope_of req) bucket) key).1 same))))
              later)
      ]

  -- In one window of the clock, whatever other requests come between, the interceptor lets the
  -- requests under one key pass up to its limit and refuses those after them, where the counter of
  -- the key is 0 when the window starts.
  pub passed-min :
      (w : W) (from : ℕ) (rs : List (HttpRequest × ℕ))
      → ((t : ℕ) → from ≤ t → (t / 1000) / window_seconds ≡ bucket → value w t key ≡ 0)
      → InWindow bucket from rs
      → passed counters key bucket (suc n) w rs ≡ min (suc n) (asked key bucket rs)
  passed-min w from rs fresh inside =
      passed-from w from 0 rs fresh inside ∙ ap (λ m. min m (asked key bucket rs)) (omega arith)
