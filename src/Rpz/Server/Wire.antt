-- ===== src/Rpz/Server/Wire.antt =====
-- The messages of a transfer between dns.Transfer.Out of the server and dns.Transfer.In of the slave.
use dnsdist_edge.Prelude.{
  ℕ, ◌≡◌, refl, ap, ◌∙◌, Bool, true, ◌&&◌, ◌||◌, List, [], ◌∷◌, ◌++◌, map, ◌==◌, nat_eq, leb, ltb,
  All, arith,
}
use dnsdist_edge.Text.{Text}
use dnsdist_edge.Rpz.Serial.{u32_mod}
use dnsdist_edge.Rpz.Types.{Rr, soa, rr, type_cname}
use dnsdist_edge.Rpz.Domain.Laws.{policy_rr}
use dnsdist_edge.Rpz.Sync.{Envelope, records}
use dnsdist_edge.Rpz.Sync.Channel.{all_records}
use dnsdist_edge.Rpz.Transfer.Diffs.{Diff}
use dnsdist_edge.Rpz.Transfer.Chain.{ixfr_answer, after_soa, diff_records}

-- Whether a message with these records can be packed (names within their limits, 65535 bytes at most), and
-- what the receiver makes of it.
pub record Wire : Type 0 where
  pub packs : List Rr → Bool
  pub carry : List Rr → Envelope

-- A letter, a digit, a hyphen, an underscore or a dot, which a name shows without an escape.
unfoldable pub is_host_byte : ℕ → Bool
is_host_byte c =
    (leb b'a' c && leb c b'z')
    || (leb b'A' c && leb c b'Z')
    || (leb b'0' c && leb c b'9')
    || c == b'-'
    || c == b'_'
    || c == b'.'

unfoldable pub is_host_name : Text → Bool
is_host_name [] = true
is_host_name (c ∷ s) = is_host_byte c && is_host_name s

-- An SOA or a CNAME whose names need no escape.
unfoldable pub is_plain : Rr → Bool
is_plain (soa owner serial) = is_host_name owner && ltb serial u32_mod
is_plain (rr owner t rdata) = t == type_cname && is_host_name owner && is_host_name rdata

abbrev pub ArePlain : List Rr → Type 0
ArePlain = All (λ (r : Rr). is_plain r ≡ true)

-- Documented behaviour of the library: a message of such records that can be packed is unpacked as it was.
pub record WireLaws (wire : Wire) : Type 0 where
  pub carry-packs :
      (rrs : List Rr) → wire.packs rrs ≡ true → ArePlain rrs → wire.carry rrs ≡ records rrs

ArePlain-append : (xs ys : List Rr) → ArePlain (xs ++ ys) → ArePlain xs × ArePlain ys
ArePlain-append [] ys h = (tt, h)
ArePlain-append (x ∷ xs) ys (here, h) =
    let (left, right) = ArePlain-append xs ys h in ((here, left), right)

append-ArePlain : (xs ys : List Rr) → ArePlain xs → ArePlain ys → ArePlain (xs ++ ys)
append-ArePlain [] ys h k = k
append-ArePlain (x ∷ xs) ys (here, h) k = (here, append-ArePlain xs ys h k)

-- Messages that can be packed arrive as they were sent.
pub map-carry :
    (wire : Wire) (laws : WireLaws wire) (envelopes : List (List Rr))
    → All (λ (rrs : List Rr). wire.packs rrs ≡ true) envelopes
    → ArePlain (all_records envelopes)
    → map wire.carry envelopes ≡ map records envelopes
unfolding all_records
map-carry wire laws [] p h = refl
map-carry wire laws (rrs ∷ envelopes) (fits, p) h =
    let (here, rest) = ArePlain-append rrs (all_records envelopes) h in
    ap (λ e. e ∷ map wire.carry envelopes) (laws.carry-packs rrs fits here)
    ∙ ap (λ es. records rrs ∷ es) (map-carry wire laws envelopes p rest)

is_host_name-append :
    (s t : Text)
    → is_host_name s ≡ true
    → is_host_name t ≡ true
    → is_host_name (s ++ b'.' ∷ t) ≡ true
unfolding is_host_name is_host_byte
is_host_name-append [] t h k = ground arith
is_host_name-append (c ∷ s) t h k = ground (arith, is_host_name-append s t)

abbrev pub AreHosts : List Text → Type 0
AreHosts = All (λ (d : Text). is_host_name d ≡ true)

module _ (zone target : Text) (zone_plain : is_host_name zone ≡ true)
    (target_plain : is_host_name target ≡ true) where
  policy_rr-ArePlain :
      (domains : List Text) → AreHosts domains → ArePlain (map (policy_rr zone target) domains)
  unfolding policy_rr is_plain
  policy_rr-ArePlain [] h = tt
  policy_rr-ArePlain (d ∷ domains) (here, h) =
      (ground (arith, is_host_name-append d zone here zone_plain), policy_rr-ArePlain domains h)

  soa-plain : (serial : ℕ) → ltb serial u32_mod ≡ true → is_plain (soa zone serial) ≡ true
  unfolding is_plain
  soa-plain serial h = ground arith

  pub axfr-ArePlain :
      (serial : ℕ) (lines : List Text)
      → ltb serial u32_mod ≡ true
      → AreHosts lines
      → ArePlain (soa zone serial ∷ (map (policy_rr zone target) lines ++ soa zone serial ∷ []))
  axfr-ArePlain serial lines bound h =
      let closing = soa-plain serial bound in
      (
        closing,
        append-ArePlain (map (policy_rr zone target) lines) (soa zone serial ∷ [])
            (policy_rr-ArePlain lines h) (closing, tt),
      )

  pub ixfr-ArePlain :
      (d : Diff) (to : ℕ)
      → ltb d.from u32_mod ≡ true
      → ltb d.to u32_mod ≡ true
      → ltb to u32_mod ≡ true
      → AreHosts d.deletes
      → AreHosts d.adds
      → ArePlain (ixfr_answer zone target d [] to)
  unfolding ixfr_answer after_soa diff_records
  ixfr-ArePlain d to from_bound to_bound bound gone come =
      let closing = soa-plain to bound in
      let middle = soa-plain d.to to_bound in
      (
        closing,
        (
          soa-plain d.from from_bound,
          append-ArePlain (map (policy_rr zone target) d.deletes)
              (soa zone d.to ∷ (map (policy_rr zone target) d.adds ++ soa zone to ∷ []))
              (policy_rr-ArePlain d.deletes gone)
              (
                middle,
                append-ArePlain (map (policy_rr zone target) d.adds) (soa zone to ∷ [])
                    (policy_rr-ArePlain d.adds come) (closing, tt),
              ),
        ),
      )
