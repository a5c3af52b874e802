-- ===== src/Ingestion/Histories.antt =====
-- Any sequence of calls of the ingestion service, from an empty repository.
use onlyfans_conversational.Prelude.{
  ℕ, ◌≤◌, String, List, [], ◌∷◌, ◌≡◌, refl, Result, ok, ◌>>=◌, arith,
}
use onlyfans_conversational.Ingestion.Types.{
  StreamKey, accepted, duplicate, gap, rejected, Status, CommitOutcome, SnapshotPayload,
  DeltaPayload, Fingerprints,
}
use onlyfans_conversational.Ingestion.Repository
use onlyfans_conversational.Ingestion.Repository.{
  Repository, CommitError, current_checkpoint, empty,
}
use onlyfans_conversational.Ingestion.Commits.{IsValid}
use onlyfans_conversational.Ingestion.Service.{ingest_snapshot, ingest_delta, Ingested}
use onlyfans_conversational.Ingestion.Outcomes.{
  Advanced, Outcome, ingest_snapshot-Outcome, ingest_delta-Outcome,
}

-- A message of an Agent, with the stream that it is for and the time of the call.
pub data Call : Type 0 where
  snapshot : StreamKey → String → SnapshotPayload → Call
  delta : StreamKey → String → DeltaPayload → Call

unfoldable pub handle : Fingerprints → Repository → Call → Ingested
handle json r (snapshot key now p) = ingest_snapshot json now r key p
handle json r (delta key now p) = ingest_delta json now r key p

unfoldable pub run : Fingerprints → Repository → List Call → Result CommitError Repository
unfolding handle
run json r [] = ok r
run json r (c ∷ cs) = do (o, r') ← handle json r c; run json r' cs

abbrev pub checkpoint_at : Repository → StreamKey → ℕ
checkpoint_at r key = current_checkpoint (Repository.stream r key)

-- No stream falls back.
abbrev pub Forward : Repository → Repository → Type 0
Forward r r' = (k : StreamKey) → checkpoint_at r k ≤ checkpoint_at r' k

Advanced-Forward :
    (r r' : Repository) (key : StreamKey) (n : ℕ)
    → Advanced r r' key n
    → checkpoint_at r key ≤ n
    → Forward r r'
Advanced-Forward r r' key n a ahead k = ground (arith, a.streams k, a.checkpoint)

unmoved-Forward : (r r' : Repository) → r' ≡ r → Forward r r'
unmoved-Forward r r' e k = rw e (omega arith)

Outcome-Forward :
    (json : Fingerprints) (now : String) (r r' : Repository) (key : StreamKey) (n : ℕ)
    (o : CommitOutcome) (status : Status)
    → Outcome json now r key n o r' status
    → Forward r r'
Outcome-Forward json now r r' key n o accepted h = Advanced-Forward r r' key n h.0 h.2
Outcome-Forward json now r r' key n o duplicate h = unmoved-Forward r r' h.0
Outcome-Forward json now r r' key n o gap h = unmoved-Forward r r' h.0
Outcome-Forward json now r r' key n o rejected h = unmoved-Forward r r' h.0

pub handle-Forward :
    (json : Fingerprints) (r : Repository) (c : Call)
    → IsValid r
    → (o : CommitOutcome) × (r' : Repository) × (handle json r c ≡ ok (o, r'))
      × IsValid r'
      × Forward r r'
unfolding handle
handle-Forward json r (snapshot key now p) v =
    let (o, r', returned, v', no_gap, holds_payload, outcome) =
      ingest_snapshot-Outcome json now r key p v in
    (o, r', returned, v', Outcome-Forward json now r r' key p.through_seq o o.status outcome)
handle-Forward json r (delta key now p) v =
    let (o, r', returned, v', next, outcome) = ingest_delta-Outcome json now r key p v in
    (o, r', returned, v', Outcome-Forward json now r r' key p.source_seq o o.status outcome)

-- Whatever the calls on a valid repository, in whatever order, the service never raises, keeps its repository valid
-- (every stored message under its own id in a known chat, no key twice, every applied event and
-- snapshot at or below the checkpoint), and no stream's checkpoint ever falls.
pub run-Forward :
    (json : Fingerprints) (r : Repository) (cs : List Call)
    → IsValid r
    → (r' : Repository) × (run json r cs ≡ ok r') × IsValid r' × Forward r r'
unfolding run
run-Forward json r [] v = (r, refl, v, λ k. omega arith)
run-Forward json r (c ∷ cs) v =
    let (o, s, returned, w, forward) = handle-Forward json r c v in
    let (r', rest, v', on) = run-Forward json s cs w in
    (r', rw returned rest, v', λ k. omega (arith, forward k, on k))
