-- ===== src/Panel/Dnstap.antt =====
-- `DnstapAggregator` of panel/dnstap.go. The day of a time is a value of the caller (time.Format), and the
-- name of a query type is what dns.TypeToString has for it, if anything. Counts are int64 in the source;
-- they would take 2^63 observations to wrap. `TopBlocked` sorts with sort.Slice, which leaves the order of
-- equal counts open: here it is that of the list.
pub mod Count
use dnsdist_edge.Prelude.{
  ℕ, suc, ◌+◌, Bool, true, false, not, ◌&&◌, ◌||◌, Option, none, some, List, [], ◌∷◌, map, ◌==◌,
  nat_eq, ltb, leb, length, take, is_some, if◌then◌else◌, Eq, arith, ◌≡◌, ◌↔◌,
}
use dnsdist_edge.Text.{Text, text_beq, text_beq_iff, text_eq, lower, trim_suffix}
use dnsdist_edge.Map.{Map, get, put, remove}

-- "_other_"
abbrev pub other_bucket : Text
other_bucket = b'_' ∷ b'o' ∷ b't' ∷ b'h' ∷ b'e' ∷ b'r' ∷ b'_' ∷ []

-- "UNKNOWN"
abbrev pub unknown_type : Text
unknown_type = b'U' ∷ b'N' ∷ b'K' ∷ b'N' ∷ b'O' ∷ b'W' ∷ b'N' ∷ []

pub record DnstapKey : Type 0 where
  pub day : Text
  pub qname : Text
  pub qtype : Text

abbrev pub key_beq : DnstapKey → DnstapKey → Bool
key_beq a b = text_beq a.day b.day && text_beq a.qname b.qname && text_beq a.qtype b.qtype

pub key_beq_iff : (a b : DnstapKey) → (key_beq a b ≡ true) ↔ (a ≡ b)
key_beq_iff a b =
    ground
      (arith, text_beq_iff a.day b.day, text_beq_iff a.qname b.qname, text_beq_iff a.qtype b.qtype)

instance abbrev pub key_eq : Eq DnstapKey
key_eq = record { beq = key_beq; beq_iff = key_beq_iff }

pub record BlockedItem : Type 0 where
  pub day : Text
  pub qname : Text
  pub qtype : Text
  pub count : ℕ

pub record DnstapAggregator : Type 0 where
  pub cap : ℕ
  pub m : Map DnstapKey ℕ

unfoldable pub new_dnstap_aggregator : ℕ → DnstapAggregator
new_dnstap_aggregator capacity = record { cap = if capacity == 0 then 50000 else capacity; m = [] }

-- a.m[k], which is 0 for a key that is not there.
unfoldable pub count_of : Map DnstapKey ℕ → DnstapKey → ℕ
count_of m k = elim (get m k) [ none ↦ 0 | some n ↦ n ]

-- The key that Add counts on.
unfoldable pub counted_key : DnstapAggregator → DnstapKey → DnstapKey
counted_key a k =
    if not (is_some (get a.m k)) && not (a.cap == 0) && leb a.cap (length a.m)
    then record k { qname = other_bucket; qtype = other_bucket }
    else k

unfoldable pub add_key : DnstapAggregator → DnstapKey → DnstapAggregator
add_key a k = record a { m = put a.m (counted_key a k) (suc (count_of a.m (counted_key a k))) }

unfoldable pub add : DnstapAggregator → Text → Text → Text → DnstapAggregator
add a day qname qtype = add_key a (record { day = day; qname = qname; qtype = qtype })

-- Observe: the questions of the message are given by name and type.
unfoldable pub observe :
    (ℕ → Option Text) → DnstapAggregator → Text → Option (List (Text × ℕ)) → DnstapAggregator
observe type_to_string a day none = a
observe type_to_string a day (some []) = a
observe type_to_string a day (some ((qname, qtype) ∷ questions)) =
    add a day (trim_suffix (lower qname) (b'.' ∷ []))
      (elim (type_to_string qtype) [ none ↦ unknown_type | some known ↦ known ])

unfoldable pub item : DnstapKey × ℕ → BlockedItem
item (k, count) = record { day = k.day; qname = k.qname; qtype = k.qtype; count = count }

-- Take
unfoldable pub take_items : DnstapAggregator → DnstapAggregator × List BlockedItem
take_items a = (record a { m = [] }, map item a.m)

-- The totals of TopBlocked by name.
unfoldable pub add_total : Map Text ℕ → Text → ℕ → Map Text ℕ
add_total totals name count =
    put totals name (elim (get totals name) [ none ↦ count | some n ↦ n + count ])

unfoldable pub domain_totals : Map DnstapKey ℕ → Map Text ℕ → Map Text ℕ
domain_totals [] totals = totals
domain_totals ((k, count) ∷ m) totals = domain_totals m (add_total totals k.qname count)

unfoldable pub insert_count : Text × ℕ → List (Text × ℕ) → List (Text × ℕ)
insert_count x [] = x ∷ []
insert_count x (y ∷ rest) = if ltb x.1 y.1 then y ∷ insert_count x rest else x ∷ y ∷ rest

unfoldable pub sort_counts : List (Text × ℕ) → List (Text × ℕ)
sort_counts [] = []
sort_counts (x ∷ rest) = insert_count x (sort_counts rest)

-- TopBlocked; no limit is the whole list.
unfoldable pub top_blocked : DnstapAggregator → ℕ → List (Text × ℕ)
top_blocked a n =
    let sorted = sort_counts (domain_totals a.m []) in
    if ltb (length sorted) n || n == 0 then sorted else take n sorted
