-- ===== src/Panel/LoginLimit.antt =====
-- panel/login_limit.go: the lockout of addresses that fail to log in. A time is the number of
-- nanoseconds since Go's zero time, so that `IsZero` is equality with 0.
pub mod Lockout
use dnsdist_edge.Prelude.{
  ℕ, suc, ◌+◌, ◌-◌, ◌*◌, Bool, true, false, not, ◌&&◌, Option, none, some, List, [], ◌==◌, nat_eq,
  ltb, leb, if◌then◌else◌,
}
use dnsdist_edge.Text.{Text, text_eq}
use dnsdist_edge.Map.{Map, get, put, remove}

abbrev pub max_login_failures : ℕ
max_login_failures = 5

-- 15 minutes
abbrev pub login_lock_window : ℕ
login_lock_window = 900000000000

pub record LoginAttempt : Type 0 where
  pub failures : ℕ
  pub locked_til : ℕ

pub record LoginRateLimiter : Type 0 where
  pub max : ℕ
  pub window : ℕ
  pub entries : Map Text LoginAttempt

unfoldable pub new_login_rate_limiter : ℕ → ℕ → LoginRateLimiter
new_login_rate_limiter max window = record { max = max; window = window; entries = [] }

-- An attempt whose lockout is over.
unfoldable pub is_expired : LoginAttempt → ℕ → Bool
is_expired e now = not (e.locked_til == 0) && not (ltb now e.locked_til)

unfoldable pub allow : LoginRateLimiter → Text → ℕ → LoginRateLimiter × Bool
allow l ip now = elim (get l.entries ip) [
  | none ↦ (l, true)
  | some e ↦
      if ltb now e.locked_til
      then (l, false)
      else if is_expired e now
      then (record l { entries = remove l.entries ip }, true)
      else (l, true)
]

-- The attempt that RecordFailure counts on: a new one, or one whose expired lockout is cleared.
unfoldable pub counted_on : Option LoginAttempt → ℕ → LoginAttempt
counted_on none now = record { failures = 0; locked_til = 0 }
counted_on (some e) now = if is_expired e now then record { failures = 0; locked_til = 0 } else e

unfoldable pub count_failure : LoginRateLimiter → LoginAttempt → ℕ → LoginAttempt
count_failure l e now =
    if leb l.max (suc e.failures)
    then record { failures = suc e.failures; locked_til = now + l.window }
    else record e { failures = suc e.failures }

unfoldable pub record_failure : LoginRateLimiter → Text → ℕ → LoginRateLimiter
record_failure l ip now = record l {
  entries = put l.entries ip (count_failure l (counted_on (get l.entries ip) now) now);
}

unfoldable pub reset_failures : LoginRateLimiter → Text → LoginRateLimiter
reset_failures l ip = elim (get l.entries ip) [
  | none ↦ l
  | some e ↦ if e.locked_til == 0 then record l { entries = remove l.entries ip } else l
]

unfoldable pub lock_remaining : LoginRateLimiter → Text → ℕ → ℕ
lock_remaining l ip now = elim (get l.entries ip) [
  | none ↦ 0
  | some e ↦ if ltb now e.locked_til then e.locked_til - now else 0
]
