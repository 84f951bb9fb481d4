-- ===== src/Panel/CdbLimit/Throttle.antt =====
-- `Allow` of panel/cdb_ratelimit.go: how many requests of an address are granted.
use dnsdist_edge.Prelude.{
  ℕ, suc, ◌+◌, ◌-◌, ◌*◌, ◌≤◌, ◌≡◌, refl, ◌∙◌, true, none, some, List, [], ◌∷◌, arith, nat_eq, ltb,
  leb, length, All, Bool-cases, if◌then◌else◌,
}
use dnsdist_edge.Text.{Text, text_eq}
use dnsdist_edge.Text.Laws.{text_beq_refl}
use dnsdist_edge.Map.{get, get-put}
use dnsdist_edge.Panel.CdbLimit.{
  cdb_untrusted_max_tracked, evict_oldest, cdb_untrusted_burst, cdb_untrusted_refill_every,
  full_bucket, CdbBucket, Buckets, refill, take_token, first_bucket, allow_found, allow,
}

-- How many of the requests of one address are granted.
unfoldable pub granted : Buckets → Text → List ℕ → ℕ
granted buckets ip [] = 0
granted buckets ip (now ∷ times) =
    let rest = granted (allow buckets ip now).0 ip times in
    if (allow buckets ip now).1 then suc rest else rest

spend :
    (b : CdbBucket) (now until : ℕ)
    → now ≤ until
    → b.last_seen ≤ until
    → ((take_token (refill b now)).0.last_seen ≤ until)
      × ((if (take_token (refill b now)).1 then cdb_untrusted_refill_every else 0)
            + (take_token (refill b now)).0.tokens
            + b.last_seen
          ≤ b.tokens + (take_token (refill b now)).0.last_seen)
unfolding take_token refill
spend b now until h k = ground (
  arith,
  Bool-cases (ltb b.last_seen now),
  Bool-cases (ltb full_bucket (b.tokens + (now - b.last_seen))),
  Bool-cases (leb cdb_untrusted_refill_every (refill b now).tokens),
)

allow-known :
    (buckets : Buckets) (ip : Text) (now : ℕ) (b : CdbBucket)
    → get buckets ip ≡ some b
    → (get (allow buckets ip now).0 ip ≡ some (take_token (refill b now)).0)
      × ((allow buckets ip now).1 ≡ (take_token (refill b now)).1)
unfolding allow allow_found
allow-known buckets ip now b known =
    rw known
      (get-put buckets ip ip (take_token (refill b now)).0 ∙ rw (text_beq_refl ip) refl, refl)

allow-unknown :
    (buckets : Buckets) (ip : Text) (now : ℕ)
    → get buckets ip ≡ none
    → (get (allow buckets ip now).0 ip ≡ some (first_bucket now))
      × ((allow buckets ip now).1 ≡ true)
unfolding allow allow_found
allow-unknown buckets ip now unknown = rw unknown (
  get-put (if leb cdb_untrusted_max_tracked (length buckets) then evict_oldest buckets else buckets)
        ip ip (first_bucket now)
      ∙ rw (text_beq_refl ip) refl,
  refl,
)

granted-spend :
    (buckets : Buckets) (ip : Text) (times : List ℕ) (b : CdbBucket) (until : ℕ)
    → get buckets ip ≡ some b
    → All (λ t. t ≤ until) times
    → b.last_seen ≤ until
    → granted buckets ip times * cdb_untrusted_refill_every + b.last_seen ≤ b.tokens + until
unfolding granted
granted-spend buckets ip [] b until known h k = omega arith
granted-spend buckets ip (now ∷ times) b until known (first, h) k =
    let (after, answer) = allow-known buckets ip now b known in
    let (seen, cost) = spend b now until first k in
    let rest =
      granted-spend (allow buckets ip now).0 ip times (take_token (refill b now)).0 until after h
        seen in
    ground (arith, Bool-cases (allow buckets ip now).1)

-- An address that has no bucket is granted at most three requests, and one more for each 30 seconds that
-- pass from its first request, if no other address sends any.
pub granted-bound :
    (buckets : Buckets) (ip : Text) (first until : ℕ) (times : List ℕ)
    → get buckets ip ≡ none
    → All (λ t. t ≤ until) (first ∷ times)
    → granted buckets ip (first ∷ times) * cdb_untrusted_refill_every + first
      ≤ cdb_untrusted_burst * cdb_untrusted_refill_every + until
unfolding granted first_bucket
granted-bound buckets ip first until times unknown (begin, h) =
    let (after, answer) = allow-unknown buckets ip first unknown in
    let rest =
      granted-spend (allow buckets ip first).0 ip times (first_bucket first) until after h begin in
    ground (arith, rest)
