-- ===== src/Panel/Tests.antt =====
-- The theorems on the panel at small tables.
mod Stores
mod Nodes
mod Lists
use dnsdist_edge.Prelude.{
  suc, ◌+◌, ◌*◌, ◌≤◌, ◌≡◌, refl, true, false, not, List, [], ◌∷◌, arith, ltb, length,
}
use dnsdist_edge.Text.{Text, text_eq, text_beq}
use dnsdist_edge.Map.{get}
use dnsdist_edge.Panel.LoginLimit.{
  LoginRateLimiter, login_lock_window, max_login_failures, allow, record_failure, reset_failures,
}
use dnsdist_edge.Panel.LoginLimit.Lockout.{
  fail_all, allow-below_max, allow-lockout, allow-isolation, reset_failures-locked,
}
use dnsdist_edge.Panel.CdbLimit.{
  Buckets, cdb_authorize, cdb_untrusted_burst, cdb_untrusted_refill_every,
}
use dnsdist_edge.Panel.CdbLimit.Table.{IsBounded, cdb_authorize-IsBounded}
use dnsdist_edge.Panel.CdbLimit.Throttle.{granted, granted-bound}
use dnsdist_edge.Panel.Dnstap.{DnstapKey, DnstapAggregator, take_items}
use dnsdist_edge.Panel.Dnstap.Count.{total, reported, add_all, take_items-add_all, length-add_all}

-- "10.1", "10.2"
abbrev client : Text
client = b'1' ∷ b'0' ∷ b'.' ∷ b'1' ∷ []

abbrev neighbour : Text
neighbour = b'1' ∷ b'0' ∷ b'.' ∷ b'2' ∷ []

abbrev limiter : LoginRateLimiter
limiter = record { max = max_login_failures; window = login_lock_window; entries = [] }

allow-lockout_example :
    (allow (record_failure (fail_all limiter client (1 ∷ 2 ∷ 3 ∷ 4 ∷ [])) client 5) client 6).1
    ≡ not (ltb 6 (5 + login_lock_window))
unfolding get
allow-lockout_example = allow-lockout limiter client refl (1 ∷ 2 ∷ 3 ∷ 4 ∷ []) 5 6 refl

allow-isolation_example :
    ((allow (record_failure limiter client 5) neighbour 6).1 ≡ (allow limiter neighbour 6).1)
    × ((allow (reset_failures limiter client) neighbour 6).1 ≡ (allow limiter neighbour 6).1)
    × ((allow (allow limiter client 5).0 neighbour 6).1 ≡ (allow limiter neighbour 6).1)
unfolding text_beq
allow-isolation_example = allow-isolation limiter client neighbour 5 6 refl

-- An address that is locked out until 100.
abbrev locked : LoginRateLimiter
locked = record limiter { entries = (client, record { failures = 5; locked_til = 100 }) ∷ [] }

reset_failures-locked_example : (allow (reset_failures locked client) client 6).1 ≡ false
unfolding allow get text_beq
reset_failures-locked_example = reset_failures-locked locked client 6 refl

-- One neighbour in the table of buckets.
abbrev buckets : Buckets
buckets = (neighbour, record { tokens = 60000000000; last_seen = 3 }) ∷ []

cdb_authorize-IsBounded_example :
    IsBounded (cdb_authorize buckets (b's' ∷ []) (b'x' ∷ []) client 9).0
unfolding get text_beq
cdb_authorize-IsBounded_example =
    cdb_authorize-IsBounded buckets (b's' ∷ []) (b'x' ∷ []) client 9 refl (omega arith, refl)

granted-bound_example :
    granted buckets client (9 ∷ 10 ∷ 11 ∷ 12 ∷ []) * cdb_untrusted_refill_every + 9
    ≤ cdb_untrusted_burst * cdb_untrusted_refill_every + 12
unfolding get text_beq
granted-bound_example =
    granted-bound buckets client 9 12 (10 ∷ 11 ∷ 12 ∷ []) refl
      (omega arith, (omega arith, (omega arith, (omega arith, tt))))

-- Two names on one day, and a capacity of one.
abbrev day : Text
day = b'1' ∷ []

abbrev keys : List DnstapKey
keys =
    record { day = day; qname = client; qtype = [] }
    ∷ record { day = day; qname = neighbour; qtype = [] }
    ∷ []

abbrev aggregator : DnstapAggregator
aggregator = record { cap = 1; m = [] }

take_items-add_all_example :
    (reported (take_items (add_all aggregator keys)).1 ≡ total aggregator.m + length keys)
    × ((take_items (add_all aggregator keys)).0 ≡ record { cap = aggregator.cap; m = [] })
take_items-add_all_example = take_items-add_all aggregator keys

length-add_all_example : length (add_all aggregator keys).m ≤ suc aggregator.cap
length-add_all_example = length-add_all day aggregator keys (omega arith) refl (refl, (refl, tt))
