-- ===== src/Rpz/Transfer/Diffs.antt =====
-- What the map of changes holds after marking, and the set semantics of a list of diffs.
use dnsdist_edge.Prelude.{
  ℕ, ◌≡◌, refl, Bool, true, false, not, ◌&&◌, ◌||◌, Option, none, some, List, [], ◌∷◌, arith,
  if◌then◌else◌,
}
use dnsdist_edge.Text.{Text, text_eq, text_beq_iff}
use dnsdist_edge.Text.Sort.{mem}
use dnsdist_edge.Map.{get, put, get-put}
use dnsdist_edge.Map.Distinct.{Distinct, put-Distinct}
use dnsdist_edge.Rpz.Domain.Laws.{domain_set, mem-domain_set}
use dnsdist_edge.Rpz.Transfer.{Changes, mark, domains_with}

-- One difference sequence of RFC 1995: from a serial to the next, with the domains that go and come.
pub record Diff : Type 0 where
  pub from : ℕ
  pub to : ℕ
  pub deletes : List Text
  pub adds : List Text

-- Whether a domain is listed once the diffs are applied one after another to a list that held it
-- or not.
unfoldable pub replay : Text → List Diff → Bool → Bool
replay x [] present = present
replay x (d ∷ diffs) present = replay x diffs ((present && not (mem x d.deletes)) || mem x d.adds)

-- What the parser's map holds after the diffs.
unfoldable pub mark_diffs : List Diff → Changes → Changes
mark_diffs [] changes = changes
mark_diffs (d ∷ diffs) changes =
    mark_diffs diffs (mark true (domain_set d.adds) (mark false (domain_set d.deletes) changes))

-- A verdict on a domain, with the old one where there is none.
abbrev pub verdict : Option Bool → Bool → Bool
verdict none present = present
verdict (some p) present = p

pub get-mark :
    (present : Bool) (ds : List Text) (changes : Changes) (x : Text)
    → get (mark present ds changes) x ≡ (if mem x ds then some present else get changes x)
unfolding mark mem
get-mark present [] changes x = refl
get-mark present (d ∷ ds) changes x = ground (
  arith,
  get-mark present ds (put changes d present) x,
  get-put changes d x present,
  text_beq_iff d x,
  text_beq_iff x d,
)

pub mark-Distinct :
    (present : Bool) (ds : List Text) (changes : Changes)
    → Distinct changes
    → Distinct (mark present ds changes)
unfolding mark
mark-Distinct present [] changes h = h
mark-Distinct present (d ∷ ds) changes h =
    mark-Distinct present ds (put changes d present) (put-Distinct changes d present h)

pub mark_diffs-Distinct :
    (diffs : List Diff) (changes : Changes) → Distinct changes → Distinct (mark_diffs diffs changes)
unfolding mark_diffs
mark_diffs-Distinct [] changes h = h
mark_diffs-Distinct (d ∷ diffs) changes h = mark_diffs-Distinct diffs _ (
    mark-Distinct true (domain_set d.adds) (mark false (domain_set d.deletes) changes)
      (mark-Distinct false (domain_set d.deletes) changes h))

-- The verdicts of the map are those of the replay.
pub verdict-mark_diffs :
    (x : Text) (diffs : List Diff) (changes : Changes) (present : Bool)
    → verdict (get (mark_diffs diffs changes) x) present
      ≡ replay x diffs (verdict (get changes x) present)
unfolding mark_diffs replay
verdict-mark_diffs x [] changes present = refl
verdict-mark_diffs x (d ∷ diffs) changes present =
    let deleted = mark false (domain_set d.deletes) changes in
    ground (
      arith,
      verdict-mark_diffs x diffs (mark true (domain_set d.adds) deleted) present,
      get-mark true (domain_set d.adds) deleted x,
      get-mark false (domain_set d.deletes) changes x,
      mem-domain_set x d.adds,
      mem-domain_set x d.deletes,
    )

abbrev pub is_marked : Bool → Option Bool → Bool
is_marked present none = false
is_marked present (some p) = if present then p else not p

-- The lists taken out of the map hold what the map says.
pub mem-domains_with :
    (x : Text) (present : Bool) (changes : Changes)
    → Distinct changes
    → mem x (domains_with present changes) ≡ is_marked present (get changes x)
unfolding mem domains_with get
mem-domains_with x present [] h = refl
mem-domains_with x present ((d, p) ∷ changes) h =
    ground (arith, mem-domains_with x present changes h.1, text_beq_iff d x, text_beq_iff x d)
