-- ===== src/Panel/LoginLimit/Lockout.antt =====
-- `Allow`, `RecordFailure` and `ResetFailures` of panel/login_limit.go: when an address is locked out.
use dnsdist_edge.Prelude.{
  ℕ, suc, ◌+◌, ◌≤◌, ◌<◌, ◌≡◌, refl, sym, ap, ◌∙◌, Bool, true, false, not, Option, none, some, List,
  [], ◌∷◌, arith, ◌==◌, nat_eq, ltb, length, Option-cases, inl, inr, if◌then◌else◌,
}
use dnsdist_edge.Text.{Text, text_eq, text_beq}
use dnsdist_edge.Text.Laws.{text_beq_refl}
use dnsdist_edge.Map.{get, get-put, get-remove}
use dnsdist_edge.Panel.LoginLimit.{
  LoginAttempt, LoginRateLimiter, is_expired, allow, counted_on, count_failure, record_failure,
  reset_failures,
}

-- Failures of one address, one after the other.
unfoldable pub fail_all : LoginRateLimiter → Text → List ℕ → LoginRateLimiter
fail_all l ip [] = l
fail_all l ip (now ∷ times) = fail_all (record_failure l ip now) ip times

-- The failures that count against an address which is not locked out; none if it has been locked out.
abbrev pub open_failures : Option LoginAttempt → Option ℕ
open_failures none = some 0
open_failures (some e) = if e.locked_til == 0 then some e.failures else none

allow-open :
    (l : LoginRateLimiter) (ip : Text) (now : ℕ) {n : ℕ}
    → open_failures (get l.entries ip) ≡ some n
    → (allow l ip now).1 ≡ true
unfolding allow is_expired
allow-open l ip now h = elim (Option-cases (get l.entries ip)) [
  | inl e ↦ ground arith
  | inr (attempt, e) ↦ ground arith
]

count_failure-open :
    (l : LoginRateLimiter) (found : Option LoginAttempt) (now n : ℕ)
    → open_failures found ≡ some n
    → suc n < l.max
    → open_failures (some (count_failure l (counted_on found now) now)) ≡ some (suc n)
unfolding counted_on count_failure is_expired
count_failure-open l none now n h below = ground arith
count_failure-open l (some e) now n h below = ground arith

count_failure-locks :
    (l : LoginRateLimiter) (found : Option LoginAttempt) (now n : ℕ)
    → open_failures found ≡ some n
    → l.max ≤ suc n
    → count_failure l (counted_on found now) now
      ≡ record { failures = suc n; locked_til = now + l.window }
unfolding counted_on count_failure is_expired
count_failure-locks l none now n h full = ground arith
count_failure-locks l (some e) now n h full = ground arith

get-record_failure :
    (l : LoginRateLimiter) (ip : Text) (now : ℕ) (other : Text)
    → get (record_failure l ip now).entries other ≡ (
        if ip == other
        then some (count_failure l (counted_on (get l.entries ip) now) now)
        else get l.entries other)
unfolding record_failure
get-record_failure l ip now other =
    get-put l.entries ip other (count_failure l (counted_on (get l.entries ip) now) now)

fail_all-max :
    (l : LoginRateLimiter) (ip : Text) (times : List ℕ) → (fail_all l ip times).max ≡ l.max
unfolding fail_all record_failure
fail_all-max l ip [] = refl
fail_all-max l ip (now ∷ times) = fail_all-max (record_failure l ip now) ip times

fail_all-window :
    (l : LoginRateLimiter) (ip : Text) (times : List ℕ) → (fail_all l ip times).window ≡ l.window
unfolding fail_all record_failure
fail_all-window l ip [] = refl
fail_all-window l ip (now ∷ times) = fail_all-window (record_failure l ip now) ip times

record_failure-open :
    (l : LoginRateLimiter) (ip : Text) (now n : ℕ)
    → open_failures (get l.entries ip) ≡ some n
    → suc n < l.max
    → open_failures (get (record_failure l ip now).entries ip) ≡ some (suc n)
record_failure-open l ip now n h below =
    ap open_failures (get-record_failure l ip now ip)
    ∙ rw (text_beq_refl ip) (count_failure-open l (get l.entries ip) now n h below)

fail_all-open :
    (l : LoginRateLimiter) (ip : Text) (times : List ℕ) (n : ℕ)
    → open_failures (get l.entries ip) ≡ some n
    → n + length times < l.max
    → open_failures (get (fail_all l ip times).entries ip) ≡ some (n + length times)
unfolding fail_all record_failure
fail_all-open l ip [] n h below = ground arith
fail_all-open l ip (now ∷ times) n h below =
    fail_all-open (record_failure l ip now) ip times (suc n)
      (record_failure-open l ip now n h (omega arith)) (omega arith)
    ∙ ap some (omega arith)

-- What an entry says of an attempt.
abbrev pub admits : Option LoginAttempt → ℕ → Bool
admits none now = true
admits (some e) now = not (ltb now e.locked_til)

pub allow-admits :
    (l : LoginRateLimiter) (ip : Text) (now : ℕ)
    → (allow l ip now).1 ≡ admits (get l.entries ip) now
unfolding allow
allow-admits l ip now = ground (arith, Option-cases (get l.entries ip))

module _ (l : LoginRateLimiter) (ip : Text) (unknown : get l.entries ip ≡ none) where
  -- An address without an entry may go on after any number of failures below the maximum.
  pub allow-below_max :
      (times : List ℕ) (now : ℕ)
      → length times < l.max
      → (allow (fail_all l ip times) ip now).1 ≡ true
  allow-below_max times now below =
      allow-open (fail_all l ip times) ip now
        (fail_all-open l ip times 0 (ground arith) (omega arith))

  last_entry :
      (times : List ℕ) (last : ℕ)
      → suc (length times) ≡ l.max
      → get (record_failure (fail_all l ip times) ip last).entries ip
        ≡ some (record { failures = suc (length times); locked_til = last + l.window })
  last_entry times last full =
      get-record_failure (fail_all l ip times) ip last ip
      ∙ rw (text_beq_refl ip) (
          ap some (
            count_failure-locks (fail_all l ip times) (get (fail_all l ip times).entries ip) last
              (length times)
              (fail_all-open l ip times 0 (ground arith) (omega arith) ∙ ap some (omega arith))
              (omega (arith, fail_all-max l ip times))))
      ∙ ap (λ w. some (record { failures = suc (length times); locked_til = last + w }))
          (fail_all-window l ip times)

  -- The failure that reaches the maximum locks the address out until the window after it has passed.
  pub allow-lockout :
      (times : List ℕ) (last now : ℕ)
      → suc (length times) ≡ l.max
      → (allow (record_failure (fail_all l ip times) ip last) ip now).1
        ≡ not (ltb now (last + l.window))
  allow-lockout times last now full =
      let l' = fail_all l ip times in
      allow-admits (record_failure l' ip last) ip now
      ∙ ap (λ o. admits o now) (last_entry times last full)

module _ (l : LoginRateLimiter) (ip other : Text) (apart : text_beq ip other ≡ false) where
  get-record_failure-other :
      (t : ℕ) → get (record_failure l ip t).entries other ≡ get l.entries other
  get-record_failure-other t = ground (arith, get-record_failure l ip t other)

  get-reset_failures-other : get (reset_failures l ip).entries other ≡ get l.entries other
  unfolding reset_failures
  get-reset_failures-other =
      ground (arith, Option-cases (get l.entries ip), get-remove l.entries ip other)

  get-allow-other : (t : ℕ) → get (allow l ip t).0.entries other ≡ get l.entries other
  unfolding allow
  get-allow-other t = ground (arith, Option-cases (get l.entries ip), get-remove l.entries ip other)

-- What is done for one address never changes the answer to another.
pub allow-isolation :
    (l : LoginRateLimiter) (ip other : Text) (t now : ℕ)
    → text_beq ip other ≡ false
    → ((allow (record_failure l ip t) other now).1 ≡ (allow l other now).1)
      × ((allow (reset_failures l ip) other now).1 ≡ (allow l other now).1)
      × ((allow (allow l ip t).0 other now).1 ≡ (allow l other now).1)
allow-isolation l ip other t now apart =
    let before = allow-admits l other now in
    (
      allow-admits (record_failure l ip t) other now
          ∙ ap (λ o. admits o now) (get-record_failure-other l ip other apart t)
          ∙ sym before,
      allow-admits (reset_failures l ip) other now
          ∙ ap (λ o. admits o now) (get-reset_failures-other l ip other apart)
          ∙ sym before,
      allow-admits (allow l ip t).0 other now
          ∙ ap (λ o. admits o now) (get-allow-other l ip other apart t)
          ∙ sym before,
    )

-- A successful login does not lift a lockout.
pub reset_failures-locked :
    (l : LoginRateLimiter) (ip : Text) (now : ℕ)
    → (allow l ip now).1 ≡ false
    → (allow (reset_failures l ip) ip now).1 ≡ false
unfolding allow reset_failures
reset_failures-locked l ip now locked = ground (arith, Option-cases (get l.entries ip))
