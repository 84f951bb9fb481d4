-- ===== src/Panel/CdbLimit/Table.antt =====
-- The table of buckets of panel/cdb_ratelimit.go: its size.
use dnsdist_edge.Prelude.{
  ℕ, suc, ◌≤◌, ◌≡◌, refl, Bool, true, false, Option, none, some, [], ◌∷◌, arith, ◌==◌, nat_eq, ltb,
  leb, length, is_some, Bool-cases, inl, inr, if◌then◌else◌,
}
use dnsdist_edge.Text.{Text, text_eq, text_beq, text_beq_iff, trim_space}
use dnsdist_edge.Text.Laws.{text_beq_refl}
use dnsdist_edge.Map.{get, put, get-put, get-remove, length-put, length-remove-le, length-remove-lt}
use dnsdist_edge.Panel.CdbLimit.{
  cdb_untrusted_max_tracked, CdbBucket, Buckets, older, find_oldest, drop_found, evict_oldest,
  refill, take_token, first_bucket, allow_found, allow, forget, throttled, cdb_authorize,
}

-- An entry of the table.
abbrev IsIn : Buckets → Option (Text × CdbBucket) → Type 0
IsIn buckets none = Unit
IsIn buckets (some (k, b)) = is_some (get buckets k) ≡ true

-- At most 4096 buckets, none of them for the empty address.
abbrev pub IsBounded : Buckets → Type 0
IsBounded buckets = (length buckets ≤ cdb_untrusted_max_tracked) × (get buckets [] ≡ none)

get-head : (j : Text) (c : CdbBucket) (rest : Buckets) → is_some (get ((j, c) ∷ rest) j) ≡ true
unfolding get
get-head j c rest = rw (text_beq_refl j) refl

get-tail :
    (j : Text) (c : CdbBucket) (rest : Buckets) (k : Text)
    → is_some (get rest k) ≡ true
    → is_some (get ((j, c) ∷ rest) k) ≡ true
unfolding get
get-tail j c rest k h = ground (arith, Bool-cases (text_beq j k))

older-IsIn :
    (m : Buckets) (best : Option (Text × CdbBucket)) (j : Text) (c : CdbBucket)
    → IsIn m best
    → is_some (get m j) ≡ true
    → IsIn m (older best j c)
unfolding older
older-IsIn m none j c h inside = inside
older-IsIn m (some (k, b)) j c h inside = elim (Bool-cases (ltb c.last_seen b.last_seen)) [
  | inl before ↦ rw before inside
  | inr not_before ↦ rw not_before h
]

find_oldest-IsIn :
    (m : Buckets) (best : Option (Text × CdbBucket)) (rest : Buckets)
    → IsIn m best
    → ((k : Text) → is_some (get rest k) ≡ true → is_some (get m k) ≡ true)
    → IsIn m (find_oldest best rest)
unfolding find_oldest
find_oldest-IsIn m best [] h sub = h
find_oldest-IsIn m best ((j, c) ∷ rest) h sub =
    find_oldest-IsIn m (older best j c) rest (older-IsIn m best j c h (sub j (get-head j c rest)))
      (λ k found. sub k (get-tail j c rest k found))

older-found : (j : Text) (c : CdbBucket) → is_some (older none j c) ≡ true
unfolding older
older-found j c = refl

find_oldest-found :
    (best : Option (Text × CdbBucket)) (rest : Buckets)
    → is_some best ≡ true
    → is_some (find_oldest best rest) ≡ true
unfolding find_oldest older
find_oldest-found best [] h = h
find_oldest-found none ((j, c) ∷ rest) h = absurd (ground arith)
find_oldest-found (some (k, b)) ((j, c) ∷ rest) h =
    find_oldest-found (older (some (k, b)) j c) rest
      (ground (arith, Bool-cases (ltb c.last_seen b.last_seen)))

drop_found-smaller :
    (found : Option (Text × CdbBucket)) (m : Buckets)
    → IsIn m found
    → is_some found ≡ true
    → get m [] ≡ none
    → suc (length (drop_found found m)) ≤ length m
unfolding drop_found
drop_found-smaller none m inside h clean = absurd (ground arith)
drop_found-smaller (some (k, b)) m inside h clean = elim (Bool-cases (k == [])) [
  | inl anonymous ↦ let same = (text_beq_iff k []).0 anonymous in absurd (ground arith)
  | inr named ↦ rw named (length-remove-lt m k inside)
]

-- The eviction makes a table without the empty address smaller.
evict_oldest-smaller :
    (m : Buckets) → 1 ≤ length m → get m [] ≡ none → suc (length (evict_oldest m)) ≤ length m
unfolding evict_oldest find_oldest
evict_oldest-smaller [] h clean = absurd (omega arith)
evict_oldest-smaller ((j, c) ∷ rest) h clean =
    drop_found-smaller (find_oldest none ((j, c) ∷ rest)) ((j, c) ∷ rest)
      (find_oldest-IsIn ((j, c) ∷ rest) none ((j, c) ∷ rest) tt (λ k h. h))
      (find_oldest-found (older none j c) rest (older-found j c)) clean

drop_found-clean :
    (found : Option (Text × CdbBucket)) (m : Buckets)
    → get m [] ≡ none
    → get (drop_found found m) [] ≡ none
unfolding drop_found
drop_found-clean none m clean = clean
drop_found-clean (some (k, b)) m clean = ground (arith, get-remove m k [])

evict_oldest-clean : (m : Buckets) → get m [] ≡ none → get (evict_oldest m) [] ≡ none
unfolding evict_oldest
evict_oldest-clean m clean = drop_found-clean (find_oldest none m) m clean

throttled-IsBounded :
    (answer : Buckets × Bool × ℕ) → IsBounded answer.0 → IsBounded (throttled answer).0
unfolding throttled
throttled-IsBounded (m, true, wait) h = h
throttled-IsBounded (m, false, wait) h = h

put-IsBounded :
    (m : Buckets) (ip : Text) (b : CdbBucket)
    → (ip == []) ≡ false
    → get m [] ≡ none
    → (if is_some (get m ip) then length m else suc (length m)) ≤ cdb_untrusted_max_tracked
    → IsBounded (put m ip b)
put-IsBounded m ip b named clean small =
    (rw (length-put m ip b) small, rw (get-put m ip [] b) (rw named clean))

allow_found-IsBounded :
    (m : Buckets) (ip : Text) (now : ℕ) (found : Option CdbBucket)
    → (ip == []) ≡ false
    → get m ip ≡ found
    → IsBounded m
    → IsBounded (allow_found m ip now found).0
unfolding allow_found
allow_found-IsBounded m ip now (some b) named known (small, clean) =
    put-IsBounded m ip (take_token (refill b now)).0 named clean (ground arith)
allow_found-IsBounded m ip now none named known (small, clean) =
    elim (Bool-cases (leb cdb_untrusted_max_tracked (length m))) [
      | inl full ↦ rw full (
          put-IsBounded (evict_oldest m) ip (first_bucket now) named (evict_oldest-clean m clean)
            (ground (arith, evict_oldest-smaller m (ground arith) clean)))
      | inr room ↦ rw room (put-IsBounded m ip (first_bucket now) named clean (ground arith))
    ]

-- Whatever a request brings, the table keeps at most 4096 buckets and none for the empty address, if
-- the request's address is not empty.
pub cdb_authorize-IsBounded :
    (buckets : Buckets) (token header ip : Text) (now : ℕ)
    → (ip == []) ≡ false
    → IsBounded buckets
    → IsBounded (cdb_authorize buckets token header ip now).0
unfolding cdb_authorize allow forget throttled
cdb_authorize-IsBounded buckets token header ip now named h =
    elim (Bool-cases (trim_space token == [])) [
      | inl unset ↦ rw unset h
      | inr set ↦ rw set (elim (Bool-cases (trim_space header == trim_space token)) [
        | inl trusted ↦ rw trusted (
          omega (arith, length-remove-le buckets ip, h.0),
          ground (arith, get-remove buckets ip []),
        )
        | inr untrusted ↦ rw untrusted (
            throttled-IsBounded (allow_found buckets ip now (get buckets ip))
              (allow_found-IsBounded buckets ip now (get buckets ip) named refl h))
      ])
    ]
