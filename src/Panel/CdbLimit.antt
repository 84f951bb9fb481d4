-- ===== src/Panel/CdbLimit.antt =====
-- panel/cdb_ratelimit.go: the throttle of unauthenticated CDB downloads. A time is a number of
-- nanoseconds. The source counts tokens in a float64 that gains elapsed/refillEvery; here a bucket holds
-- the tokens times refillEvery, so that the refill is the elapsed time and nothing is rounded. The order
-- in which Go visits a map is that of the list of entries.
pub mod Table
pub mod Throttle
use dnsdist_edge.Prelude.{
  ℕ, suc, ◌+◌, ◌-◌, ◌*◌, ◌/◌, Bool, true, false, not, ◌&&◌, ◌||◌, Option, none, some, List, [], ◌∷◌,
  ◌==◌, nat_eq, ltb, leb, length, if◌then◌else◌,
}
use dnsdist_edge.Text.{Text, text_eq, trim_space}
use dnsdist_edge.Map.{Map, get, put, remove}

abbrev pub cdb_untrusted_burst : ℕ
cdb_untrusted_burst = 3

-- 30 seconds, which is also one token.
abbrev pub cdb_untrusted_refill_every : ℕ
cdb_untrusted_refill_every = 30000000000

abbrev pub cdb_untrusted_max_tracked : ℕ
cdb_untrusted_max_tracked = 4096

-- A full bucket.
abbrev pub full_bucket : ℕ
full_bucket = cdb_untrusted_burst * cdb_untrusted_refill_every

pub record CdbBucket : Type 0 where
  pub tokens : ℕ
  pub last_seen : ℕ

abbrev pub Buckets : Type 0
Buckets = Map Text CdbBucket

unfoldable pub older : Option (Text × CdbBucket) → Text → CdbBucket → Option (Text × CdbBucket)
older none k b = some (k, b)
older (some (j, oldest)) k b =
    if ltb b.last_seen oldest.last_seen then some (k, b) else some (j, oldest)

-- The loop of evictOldestLocked.
unfoldable pub find_oldest : Option (Text × CdbBucket) → Buckets → Option (Text × CdbBucket)
find_oldest best [] = best
find_oldest best ((k, b) ∷ buckets) = find_oldest (older best k b) buckets

unfoldable pub drop_found : Option (Text × CdbBucket) → Buckets → Buckets
drop_found none buckets = buckets
drop_found (some (k, b)) buckets = if k == [] then buckets else remove buckets k

-- evictOldestLocked
unfoldable pub evict_oldest : Buckets → Buckets
evict_oldest buckets = drop_found (find_oldest none buckets) buckets

-- The refill of a bucket.
unfoldable pub refill : CdbBucket → ℕ → CdbBucket
refill b now =
    if ltb b.last_seen now
    then record {
      tokens =
          if ltb full_bucket (b.tokens + (now - b.last_seen))
          then full_bucket
          else b.tokens + (now - b.last_seen);
      last_seen = now;
    }
    else b

-- What a known address is granted, its bucket after that, and the time to wait.
unfoldable pub take_token : CdbBucket → CdbBucket × Bool × ℕ
take_token b =
    if leb cdb_untrusted_refill_every b.tokens
    then (record b { tokens = b.tokens - cdb_untrusted_refill_every }, true, 0)
    else (b, false, cdb_untrusted_refill_every - b.tokens)

unfoldable pub first_bucket : ℕ → CdbBucket
first_bucket now = record { tokens = full_bucket - cdb_untrusted_refill_every; last_seen = now }

unfoldable pub allow_found : Buckets → Text → ℕ → Option CdbBucket → Buckets × Bool × ℕ
allow_found buckets ip now none =
    let room =
      if leb cdb_untrusted_max_tracked (length buckets) then evict_oldest buckets else buckets in
    (put room ip (first_bucket now), true, 0)
allow_found buckets ip now (some b) =
    let (after, granted, wait) = take_token (refill b now) in (put buckets ip after, granted, wait)

-- cdbRateLimiter.Allow
unfoldable pub allow : Buckets → Text → ℕ → Buckets × Bool × ℕ
allow buckets ip now = allow_found buckets ip now (get buckets ip)

-- cdbRateLimiter.Forget
unfoldable pub forget : Buckets → Text → Buckets
forget buckets ip = remove buckets ip

-- The answer of cdbAuthorize: 429 with Retry-After in seconds, or leave to go on.
pub data Verdict : Type 0 where
  trusted untrusted : Verdict
  too_many_requests : ℕ → Verdict

unfoldable pub retry_after : ℕ → ℕ
retry_after wait = let secs = wait / 1000000000 in if ltb secs 1 then 1 else secs

unfoldable pub throttled : Buckets × Bool × ℕ → Buckets × Verdict
throttled (buckets, granted, wait) =
    if granted then (buckets, untrusted) else (buckets, too_many_requests (retry_after wait))

-- cdbAuthorize: `token` is the configured secret, `header` the X-CDB-Token of the request.
unfoldable pub cdb_authorize : Buckets → Text → Text → Text → ℕ → Buckets × Verdict
cdb_authorize buckets token header ip now =
    if trim_space token == []
    then (buckets, trusted)
    else if trim_space header == trim_space token
    then (forget buckets ip, trusted)
    else throttled (allow buckets ip now)
