-- ===== src/Rpz/Sync.antt =====
-- `SyncIXFR` and `streamAXFRFromEnvelopes` of tools/rpz-master/slave_client.go. What the channel of
-- the transfer delivers is the list of its envelopes.
pub mod Channel
pub mod Laws
use dnsdist_edge.Prelude.{
  ℕ, suc, ◌+◌, Bool, true, false, not, ◌&&◌, ◌||◌, Option, none, some, List, [], ◌∷◌, ◌++◌, nat_eq,
  ◌==◌, ltb, leb, length, Result, ok, err, ◌>>=◌, if◌then◌else◌,
}
use dnsdist_edge.Text.{Text, text_eq, trim_suffix, lower, equal_fold}
use dnsdist_edge.Rpz.Serial.{serial_greater}
use dnsdist_edge.Rpz.Types.{Dns, Rr, soa, rr, Delta, Error}
use dnsdist_edge.Rpz.Domain.{dot, policy_owner}
use dnsdist_edge.Rpz.Transfer.{parse_transfer_records}

pub data Envelope : Type 0 where
  failed : Envelope
  records : List Rr → Envelope

-- The variables of the closure `process`: `total`, `gotLast`, and the lines written to the staging
-- file.
pub record Staging : Type 0 where
  pub total : ℕ
  pub got_last : Bool
  pub lines : List Text

-- What an accepted record writes.
unfoldable pub stage_line : Option Text → Staging → Staging
stage_line none st = st
stage_line (some clean) st = record st { lines = st.lines ++ clean ∷ [] }

unfoldable pub stage_soa : Text → ℕ → Text → ℕ → Staging → Result Error Staging
stage_soa zone first owner serial st =
    if not (equal_fold owner zone)
    then err Error.soa_outside_zone
    else if not (serial == first)
    then err Error.no_closing_soa
    else ok (record st { got_last = true })

unfoldable pub stage_record : Dns → Text → ℕ → Rr → Staging → Result Error Staging
stage_record dns zone first (soa owner serial) st = stage_soa zone first owner serial st
stage_record dns zone first (rr owner t rdata) st =
    if st.got_last
    then err Error.record_after_closing
    else do found ← policy_owner dns zone (rr owner t rdata); ok (stage_line found st)

-- process(rr)
unfoldable pub process : Dns → Text → ℕ → ℕ → Rr → Staging → Result Error Staging
process dns zone first limit r st =
    if ltb limit (suc st.total)
    then err Error.over_limit
    else stage_record dns zone first r (record st { total = suc st.total })

unfoldable pub process_all : Dns → Text → ℕ → ℕ → List Rr → Staging → Result Error Staging
process_all dns zone first limit [] st = ok st
process_all dns zone first limit (r ∷ rrs) st = do
  st' ← process dns zone first limit r st
  process_all dns zone first limit rrs st'

unfoldable pub process_envelopes :
    Dns → Text → ℕ → ℕ → List Envelope → Staging → Result Error Staging
process_envelopes dns zone first limit [] st = ok st
process_envelopes dns zone first limit (failed ∷ envelopes) st = err Error.stream_error
process_envelopes dns zone first limit (records rrs ∷ envelopes) st = do
  st' ← process_all dns zone first limit rrs st
  process_envelopes dns zone first limit envelopes st'

-- `written` says whether creating, flushing, syncing and closing the staging file succeed. `head` is
-- head[1:], without the opening SOA, whose serial is `first`.
unfoldable pub stream_axfr :
    Dns → Bool → Text → ℕ → ℕ → ℕ → ℕ → List Rr → List Envelope → Result Error Delta
stream_axfr dns written zone local now first limit head envelopes = do
  st ← process_all dns zone first limit head (record { total = 0; got_last = false; lines = [] })
  st' ← process_envelopes dns zone first limit envelopes st
  if not st'.got_last
      then err Error.no_closing_soa
      else if not written
      then err Error.io_failed
      else ok (record {
        from_serial = local;
        to_serial = first;
        timestamp = now;
        full = true;
        added = [];
        deleted = [];
        staged_raw = some st'.lines;
      })

-- The loop that buffers the first two records.
unfoldable pub read_head : List Rr → List Envelope → Result Error (List Rr × List Envelope)
read_head head [] = ok (head, [])
read_head head (envelope ∷ envelopes) = elim (ltb (length head) 2) [
  | false ↦ ok (head, envelope ∷ envelopes)
  | true ↦ elim envelope [
    | failed ↦ err Error.stream_error
    | records rrs ↦ read_head (head ++ rrs) envelopes
  ]
]

-- The loop that gathers an IXFR answer.
unfoldable pub gather : ℕ → List Rr → List Envelope → Result Error (List Rr)
gather limit rrs [] = ok rrs
gather limit rrs (failed ∷ envelopes) = err Error.stream_error
gather limit rrs (records more ∷ envelopes) = elim (ltb limit (length rrs + length more)) [
  | true ↦ err Error.over_limit
  | false ↦ gather limit (rrs ++ more) envelopes
]

-- isIXFRResponse
unfoldable pub is_ixfr_response : List Rr → Bool
is_ixfr_response (soa o first ∷ soa o' second ∷ rest) = not (second == first)
is_ixfr_response _ = false

-- The limit of the configuration, or the default where it has none.
unfoldable pub effective_limit : ℕ → ℕ
effective_limit configured = if configured == 0 then 10000000 else configured

-- The last check of the serial.
unfoldable pub check_serial : ℕ → Delta → Result Error (Option Delta)
check_serial upstream delta =
    if not (upstream == 0) && not (delta.to_serial == upstream)
    then err Error.serial_mismatch
    else ok (some delta)

unfoldable pub check_optional : ℕ → Option Delta → Result Error (Option Delta)
check_optional upstream none = ok none
check_optional upstream (some delta) = check_serial upstream delta

unfoldable pub sync_head :
    Dns → Bool → Text → ℕ → ℕ → ℕ → ℕ → List Rr → List Envelope → Result Error (Option Delta)
sync_head dns written zone limit local upstream now [] envelopes = err Error.empty_transfer
sync_head dns written zone limit local upstream now (rr o t d ∷ head) envelopes =
    err Error.no_opening_soa
sync_head dns written zone limit local upstream now (soa owner first ∷ []) envelopes =
    if not (equal_fold owner (lower (dns.fqdn zone)))
    then err Error.no_opening_soa
    else if local == first
    then ok none
    else err Error.truncated_after_soa
sync_head dns written zone limit local upstream now (soa owner first ∷ second ∷ head) envelopes =
    if not (equal_fold owner (lower (dns.fqdn zone)))
    then err Error.no_opening_soa
    else if is_ixfr_response (soa owner first ∷ second ∷ head)
    then (do
      rrs ← gather limit (soa owner first ∷ second ∷ head) envelopes
      delta ← parse_transfer_records dns rrs zone local now
      check_optional upstream delta)
    else do
      delta ←
          stream_axfr dns written (lower (dns.fqdn zone)) local now first limit (second ∷ head)
            envelopes
      check_serial upstream delta

-- SyncIXFR from the opened transfer on.
unfoldable pub sync_ixfr :
    Dns → Bool → Text → ℕ → ℕ → ℕ → ℕ → List Envelope → Result Error (Option Delta)
sync_ixfr dns written zone configured local upstream now envelopes = do
  (head, rest) ← read_head [] envelopes
  sync_head dns written zone (effective_limit configured) local upstream now head rest

-- Which transfer SyncIXFR asks for.
pub data Query : Type 0 where
  axfr : Query
  ixfr : ℕ → Query

unfoldable pub transfer_request : ℕ → Query
transfer_request local = if local == 0 then axfr else ixfr local

unfoldable pub sync_request : ℕ → ℕ → Query
sync_request local upstream =
    if not (local == 0) && ltb upstream local && serial_greater upstream local
    then axfr
    else transfer_request local
