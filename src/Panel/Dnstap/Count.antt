-- ===== src/Panel/Dnstap/Count.antt =====
-- `Add` and `Take` of panel/dnstap.go: the counts and the size of the table.
use mathlib.Core.Path.{subst}
use dnsdist_edge.Prelude.{
  ℕ, suc, ◌+◌, ◌≤◌, ◌<◌, ◌≡◌, refl, ap, sym, ◌∙◌, true, List, [], ◌∷◌, map, arith, ◌==◌, nat_eq,
  leb, length, is_some, Bool-cases, inl, inr, ◌⊎◌, All,
}
use dnsdist_edge.Text.{Text, text_eq}
use dnsdist_edge.Text.Laws.{beq_refl}
use dnsdist_edge.Map.{Map, get, put, get-put, length-put}
use dnsdist_edge.Panel.Dnstap.{
  other_bucket, DnstapKey, key_eq, BlockedItem, DnstapAggregator, count_of, counted_key, add_key,
  item, take_items,
}

-- The observations that a table holds.
unfoldable pub total : Map DnstapKey ℕ → ℕ
total [] = 0
total ((k, count) ∷ m) = count + total m

-- The observations that the items of Take report.
unfoldable pub reported : List BlockedItem → ℕ
reported [] = 0
reported (x ∷ items) = x.count + reported items

total-put :
    (m : Map DnstapKey ℕ) (k : DnstapKey) → total (put m k (suc (count_of m k))) ≡ suc (total m)
unfolding total put get count_of
total-put [] k = refl
total-put ((j, n) ∷ m) k = ground (arith, total-put m k)

reported-map : (m : Map DnstapKey ℕ) → reported (map item m) ≡ total m
unfolding total reported item
reported-map [] = refl
reported-map ((k, n) ∷ m) = ap (λ r. n + r) (reported-map m)

-- A sequence of observations.
unfoldable pub add_all : DnstapAggregator → List DnstapKey → DnstapAggregator
add_all a [] = a
add_all a (k ∷ ks) = add_all (add_key a k) ks

total-add_all :
    (a : DnstapAggregator) (ks : List DnstapKey) → total (add_all a ks).m ≡ total a.m + length ks
unfolding add_all add_key
total-add_all a [] = omega arith
total-add_all a (k ∷ ks) =
    omega (arith, total-add_all (add_key a k) ks, total-put a.m (counted_key a k))

cap-add_all : (a : DnstapAggregator) (ks : List DnstapKey) → (add_all a ks).cap ≡ a.cap
unfolding add_all add_key
cap-add_all a [] = refl
cap-add_all a (k ∷ ks) = cap-add_all (add_key a k) ks

-- After any observations Take reports as many as were made since the window began, and leaves an
-- aggregator of the same capacity without any keys.
pub take_items-add_all :
    (a : DnstapAggregator) (ks : List DnstapKey)
    → (reported (take_items (add_all a ks)).1 ≡ total a.m + length ks)
      × ((take_items (add_all a ks)).0 ≡ record { cap = a.cap; m = [] })
unfolding take_items
take_items-add_all a ks = (
  reported-map (add_all a ks).m ∙ total-add_all a ks,
  ap (λ cap. record { cap = cap; m = [] }) (cap-add_all a ks),
)

abbrev other_key : Text → DnstapKey
other_key day = record { day = day; qname = other_bucket; qtype = other_bucket }

-- The window of one day: within the capacity, or one above it with the key of the rest.
abbrev pub IsWithin : Text → DnstapAggregator → Type 0
IsWithin day a =
    (length a.m ≤ a.cap) ⊎ ((length a.m ≤ suc a.cap) × (is_some (get a.m (other_key day)) ≡ true))

-- Counting on a key that is there.
count_known :
    (day : Text) (a : DnstapAggregator) (k : DnstapKey) (v : ℕ)
    → is_some (get a.m k) ≡ true
    → IsWithin day a
    → IsWithin day (record a { m = put a.m k v })
count_known day a k v known (inl small) = inl (ground (arith, length-put a.m k v))
count_known day a k v known (inr (small, other)) = inr (
  ground (arith, length-put a.m k v),
  ground (arith, get-put a.m k (other_key day) v, Bool-cases (k == other_key day)),
)

-- Counting on the key of the rest.
count_other :
    (day : Text) (a : DnstapAggregator) (v : ℕ)
    → IsWithin day a
    → IsWithin day (record a { m = put a.m (other_key day) v })
count_other day a v h = inr (
  ground (arith, length-put a.m (other_key day) v, Bool-cases (is_some (get a.m (other_key day)))),
  ap is_some (get-put a.m (other_key day) (other_key day) v) ∙ rw (beq_refl (other_key day)) refl,
)

-- Counting on a new key where there is room.
count_new :
    (day : Text) (a : DnstapAggregator) (k : DnstapKey) (v : ℕ)
    → length a.m < a.cap
    → IsWithin day (record a { m = put a.m k v })
count_new day a k v room =
    inl (ground (arith, length-put a.m k v, Bool-cases (is_some (get a.m k))))

counted_key-cases :
    (a : DnstapAggregator) (k : DnstapKey)
    → 0 < a.cap
    → (counted_key a k ≡ other_key k.day)
      ⊎ ((counted_key a k ≡ k) × ((is_some (get a.m k) ≡ true) ⊎ (length a.m < a.cap)))
unfolding counted_key
counted_key-cases a k some_room =
    ground (arith, Bool-cases (is_some (get a.m k)), Bool-cases (leb a.cap (length a.m)))

add_key-IsWithin :
    (day : Text) (a : DnstapAggregator) (k : DnstapKey)
    → k.day ≡ day
    → 0 < a.cap
    → IsWithin day a
    → IsWithin day (add_key a k)
unfolding add_key
add_key-IsWithin day a k today some_room h =
    let within =
      λ (c : DnstapKey). IsWithin day (record a { m = put a.m c (suc (count_of a.m c)) }) in
    elim (counted_key-cases a k some_room) [
      | inl rest ↦
          subst within (sym (rest ∙ ap other_key today))
            (count_other day a (suc (count_of a.m (other_key day))) h)
      | inr (same, inl known) ↦
          subst within (sym same) (count_known day a k (suc (count_of a.m k)) known h)
      | inr (same, inr room) ↦
          subst within (sym same) (count_new day a k (suc (count_of a.m k)) room)
    ]

add_all-IsWithin :
    (day : Text) (a : DnstapAggregator) (ks : List DnstapKey)
    → 0 < a.cap
    → IsWithin day a
    → All (λ k. k.day ≡ day) ks
    → IsWithin day (add_all a ks) × ((add_all a ks).cap ≡ a.cap)
unfolding add_all add_key
add_all-IsWithin day a [] some_room h today = (h, refl)
add_all-IsWithin day a (k ∷ ks) some_room h (now, today) =
    add_all-IsWithin day (add_key a k) ks some_room (add_key-IsWithin day a k now some_room h) today

-- The observations of one day take at most one key more than the capacity.
pub length-add_all :
    (day : Text) (a : DnstapAggregator) (ks : List DnstapKey)
    → 0 < a.cap
    → a.m ≡ []
    → All (λ k. k.day ≡ day) ks
    → length (add_all a ks).m ≤ suc a.cap
length-add_all day a ks some_room empty today =
    let (within, same) = add_all-IsWithin day a ks some_room (inl (rw empty (omega arith))) today in
    ground (arith, within)
