-- ===== src/Rpz/Server/Stream.antt =====
-- The records that the server's envelopes carry.
use mathlib.Core.List.{append_assoc, append-nil}
use dnsdist_edge.Prelude.{
  ℕ, ◌≡◌, refl, sym, ap, true, false, List, [], ◌∷◌, ◌++◌, map, arith, leb, length, All, Bool-cases,
  inl, inr, ◌∙◌,
}
use dnsdist_edge.Text.{Text, text_eq, trim_space}
use dnsdist_edge.Rpz.Types.{Dns, Rr, soa, Delta}
use dnsdist_edge.Rpz.Domain.Laws.{IsPolicyDomain, policy_rr, lower-normalize}
use dnsdist_edge.Rpz.Domain.Normal.{normal-fixed}
use dnsdist_edge.Rpz.Transfer.Diffs.{Diff}
use dnsdist_edge.Rpz.Transfer.Chain.{ixfr_answer, after_soa, diff_records}
use dnsdist_edge.Rpz.Delta.{max_line, is_skipped}
use dnsdist_edge.Rpz.Sync.Channel.{all_records, all_records-append}
use dnsdist_edge.Rpz.Server.{
  line_record, chunk_size, flush, axfr_body, axfr_envelopes, delta_record, delta_envelopes,
  ixfr_envelopes,
}

-- A line of the raw file as the program writes it.
pub record IsStored (dns : Dns) (line : Text) : Type 0 where
  pub policy : IsPolicyDomain dns line
  pub shown : is_skipped line ≡ false

-- The diff that a stored delta stands for.
abbrev pub diff_of : ℕ → Delta → Diff
diff_of client d = record { from = client; to = d.to_serial; deletes = d.deleted; adds = d.added }

all_records-cons :
    (rrs : List Rr) (envelopes : List (List Rr))
    → all_records (rrs ∷ envelopes) ≡ rrs ++ all_records envelopes
unfolding all_records
all_records-cons rrs envelopes = refl

module _ (dns : Dns) (zone target : Text) where
  delta_envelopes-records :
      (ds : List Text)
      → All (IsPolicyDomain dns) ds
      → all_records (delta_envelopes zone target ds) ≡ map (policy_rr zone target) ds
  unfolding all_records delta_envelopes delta_record policy_rr
  delta_envelopes-records [] h = refl
  delta_envelopes-records (d ∷ ds) h =
      rw (delta_envelopes-records ds h.1, (normal-fixed dns d h.0.normal).1)

  -- An incremental transfer carries the answer with the delta as its one diff.
  pub ixfr_envelopes-records :
      (client : ℕ) (d : Delta)
      → All (IsPolicyDomain dns) d.added
      → All (IsPolicyDomain dns) d.deleted
      → all_records (ixfr_envelopes zone target client d)
        ≡ ixfr_answer zone target (diff_of client d) [] d.to_serial
  unfolding all_records ixfr_envelopes ixfr_answer after_soa diff_records
  ixfr_envelopes-records client d ha hd =
      simp (
        all_records-append,
        delta_envelopes-records d.added ha,
        delta_envelopes-records d.deleted hd,
      )

  line_record-policy_rr :
      (d : Text) → IsPolicyDomain dns d → line_record zone target d ≡ policy_rr zone target d
  unfolding line_record policy_rr
  line_record-policy_rr d p =
      let (space, suffix, _) = normal-fixed dns d p.normal in
      rw (space, lower-normalize dns d d p.normal, suffix)

  flush-records : (chunk : List Rr) → all_records (flush chunk) ≡ chunk
  unfolding flush all_records
  flush-records [] = refl
  flush-records (r ∷ chunk) = append-nil (r ∷ chunk)

  axfr_body-full :
      (chunk : List Rr) (d : Text) (lines : List Text)
      → IsStored dns d
      → leb chunk_size (length (chunk ++ line_record zone target d ∷ [])) ≡ true
      → axfr_body zone target chunk (d ∷ lines) ≡ (
        (chunk ++ line_record zone target d ∷ []) ∷ (axfr_body zone target [] lines).0,
        (axfr_body zone target [] lines).1,
      )
  unfolding axfr_body
  axfr_body-full chunk d lines s full =
      let (space, _, short) = normal-fixed dns d s.policy.normal in
      let shown : is_skipped (trim_space d) ≡ false = rw space s.shown in
      let fits : leb max_line (length d) ≡ false = ground arith in
      rw (fits, axfr_body) (rw (shown, axfr_body) (rw (full, axfr_body)))

  axfr_body-room :
      (chunk : List Rr) (d : Text) (lines : List Text)
      → IsStored dns d
      → leb chunk_size (length (chunk ++ line_record zone target d ∷ [])) ≡ false
      → axfr_body zone target chunk (d ∷ lines)
        ≡ axfr_body zone target (chunk ++ line_record zone target d ∷ []) lines
  unfolding axfr_body
  axfr_body-room chunk d lines s room =
      let (space, _, short) = normal-fixed dns d s.policy.normal in
      let shown : is_skipped (trim_space d) ≡ false = rw space s.shown in
      let fits : leb max_line (length d) ≡ false = ground arith in
      rw (fits, axfr_body) (rw (shown, axfr_body) (rw (room, axfr_body)))

  axfr_body-records :
      (chunk : List Rr) (lines : List Text)
      → All (IsStored dns) lines
      → (all_records (axfr_body zone target chunk lines).0
          ≡ chunk ++ map (policy_rr zone target) lines)
        × ((axfr_body zone target chunk lines).1 ≡ true)
  unfolding axfr_body
  axfr_body-records chunk [] h = (flush-records chunk ∙ sym (append-nil chunk), refl)
  axfr_body-records chunk (d ∷ lines) h =
      let more = chunk ++ line_record zone target d ∷ [] in
      let shape : more ++ map (policy_rr zone target) lines
          ≡ chunk ++ map (policy_rr zone target) (d ∷ lines) =
        rw (line_record-policy_rr d h.0.policy)
          (append_assoc chunk (policy_rr zone target d ∷ []) (map (policy_rr zone target) lines)) in
      elim (Bool-cases (leb chunk_size (length more))) [
        | inl full ↦
            let (r, done) = axfr_body-records [] lines h.1 in
            rw (axfr_body-full chunk d lines h.0 full) (
              all_records-cons more (axfr_body zone target [] lines).0
                  ∙ ap (λ l. more ++ l) r
                  ∙ shape,
              done,
            )
        | inr room ↦
            let (r, done) = axfr_body-records more lines h.1 in
            rw (axfr_body-room chunk d lines h.0 room) (r ∙ shape, done)
      ]

  -- The whole zone: the SOA, one CNAME for each line, and the SOA again.
  pub axfr_envelopes-records :
      (serial : ℕ) (lines : List Text)
      → All (IsStored dns) lines
      → all_records (axfr_envelopes zone target serial lines)
        ≡ soa zone serial ∷ (map (policy_rr zone target) lines ++ soa zone serial ∷ [])
  unfolding axfr_envelopes
  axfr_envelopes-records serial lines h =
      let (r, done) = axfr_body-records [] lines h in
      rw done (
        unfold all_records in
        ap (λ l. soa zone serial ∷ l)
          (all_records-append (axfr_body zone target [] lines).0 ((soa zone serial ∷ []) ∷ [])
            ∙ ap (λ l. l ++ soa zone serial ∷ []) r))
