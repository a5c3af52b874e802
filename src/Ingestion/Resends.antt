-- ===== src/Ingestion/Resends.antt =====
-- Deduplication: what a handler answers to a snapshot or an event that it has recorded.
use onlyfans_conversational.Prelude.{
  String, String-discrete, ℕ_discrete, none, some, ◌≡◌, refl, arith, ok, inl, inr, holds,
  Bool-cases, if◌then◌else◌, List, ◌∙◌,
}
use onlyfans_conversational.Prelude.Dict
use onlyfans_conversational.Prelude.Dict.{Dict, lookup-insert_self}
use onlyfans_conversational.Ingestion.Types.{
  StreamKey, StreamKey-discrete, RawStreamState, StoredSnapshot, StoredEvent, Status, accepted,
  duplicate, rejected, CommitOutcome, SnapshotPayload, DeltaPayload, Fingerprints,
  snapshot_id_reused, event_id_reused,
}
use onlyfans_conversational.Ingestion.Repository
use onlyfans_conversational.Ingestion.Repository.{Repository, account_read_model}
use onlyfans_conversational.Ingestion.Commits.{IsValid, stored}
use onlyfans_conversational.Ingestion.Service.{
  duplicate_outcome, invariant_failure, snapshot_replacement, delta_replacement, ingest_snapshot,
  ingest_delta,
}
use onlyfans_conversational.Ingestion.Outcomes.{
  fresh_snapshot-stored, fresh_delta-stored, ingest_snapshot-Outcome, ingest_delta-Outcome,
}
use onlyfans_conversational.Ingestion.Histories.{Call, run}
use onlyfans_conversational.Ingestion.Records.{run-Keeps}
use onlyfans_conversational.Ingestion.Handlers.{
  projected, current, print, print_delta, ingest_snapshot-cases, ingest_delta-cases, FreshSnapshot,
  FreshDelta,
}

module _ (json : Fingerprints) where
  -- What a recorded id leads to, by whether the content is the recorded one.
  abbrev pub resend_status : String → String → Status
  resend_status recorded sent =
      if holds (String-discrete recorded sent) then duplicate else rejected

  recorded_snapshot :
      (now : String) (r : Repository) (key : StreamKey) (q : SnapshotPayload) (s : RawStreamState)
      (sn : StoredSnapshot)
      → Repository.stream r key ≡ some s
      → Dict.lookup ℕ_discrete q.snapshot_id s.snapshots_by_id ≡ some sn
      → (o : CommitOutcome) × (ingest_snapshot json now r key q ≡ ok (o, r))
        × (o.status
            ≡ resend_status sn.fingerprint (json.of_snapshot q.through_seq q.chats q.messages))
  unfolding ingest_snapshot
  recorded_snapshot now r key q s sn known seen =
      let fresh = json.of_snapshot q.through_seq q.chats q.messages in
      elim (Bool-cases (holds (String-discrete sn.fingerprint fresh))) [
        | inl same ↦ (duplicate_outcome s.checkpoint (some q.snapshot_id), ground arith, rw same)
        | inr other ↦ (
          invariant_failure s.checkpoint (some q.snapshot_id) snapshot_id_reused,
          ground arith,
          rw other,
        )
      ]

  recorded_event :
      (now : String) (r : Repository) (key : StreamKey) (q : DeltaPayload) (s : RawStreamState)
      (ev : StoredEvent)
      → Repository.stream r key ≡ some s
      → Dict.lookup ℕ_discrete q.event_id s.events_by_id ≡ some ev
      → (o : CommitOutcome) × (ingest_delta json now r key q ≡ ok (o, r))
        × (o.status ≡ (
            if holds (ℕ_discrete ev.source_seq q.source_seq)
            then resend_status ev.fingerprint (json.of_delta q.source_seq q.change)
            else rejected))
  unfolding ingest_delta
  recorded_event now r key q s ev known seen =
      let fresh = json.of_delta q.source_seq q.change in
      elim (Bool-cases (holds (ℕ_discrete ev.source_seq q.source_seq))) [
        | inr moved ↦
            (invariant_failure s.checkpoint none event_id_reused, ground arith, rw moved refl)
        | inl at ↦ elim (Bool-cases (holds (String-discrete ev.fingerprint fresh))) [
          | inl same ↦ (duplicate_outcome s.checkpoint none, ground arith, rw (at, same) refl)
          | inr other ↦ (
            invariant_failure s.checkpoint none event_id_reused,
            ground arith,
            rw (at, other) refl,
          )
        ]
      ]

  snapshot_recorded :
      (now : String) (r r' : Repository) (key : StreamKey) (p : SnapshotPayload) (o : CommitOutcome)
      → IsValid r
      → ingest_snapshot json now r key p ≡ ok (o, r')
      → FreshSnapshot json now r key p
      → (s : RawStreamState) × (sn : StoredSnapshot) × (Repository.stream r' key ≡ some s)
        × (Dict.lookup ℕ_discrete p.snapshot_id s.snapshots_by_id ≡ some sn)
        × (sn.fingerprint ≡ json.of_snapshot p.through_seq p.chats p.messages)
  unfolding Repository.stream
  snapshot_recorded now r r' key p o v returned fresh =
      let (chats, messages, stores, h, ahead, sent) =
        fresh_snapshot-stored json now r key p v fresh in
      let t = current json now r key p in
      let s = snapshot_replacement t p (print json now r key p) chats messages in
      let there : r' ≡ stored r key s (projected json now r key s).0 = ground arith in
      (
        s,
        record {
          snapshot_id = p.snapshot_id;
          through_seq = p.through_seq;
          fingerprint = print json now r key p;
        },
        rw there (lookup-insert_self StreamKey-discrete key s r.streams),
        lookup-insert_self ℕ_discrete p.snapshot_id _ t.snapshots_by_id,
        refl,
      )

  event_recorded :
      (now : String) (r r' : Repository) (key : StreamKey) (p : DeltaPayload) (o : CommitOutcome)
      → IsValid r
      → ingest_delta json now r key p ≡ ok (o, r')
      → FreshDelta json now r key p
      → (s : RawStreamState) × (ev : StoredEvent) × (Repository.stream r' key ≡ some s)
        × (Dict.lookup ℕ_discrete p.event_id s.events_by_id ≡ some ev)
        × (ev.source_seq ≡ p.source_seq)
        × (ev.fingerprint ≡ json.of_delta p.source_seq p.change)
  unfolding Repository.stream
  event_recorded now r r' key p o v returned fresh =
      let (changed, stores, h, next, before, was, new, applies) =
        fresh_delta-stored json now r key p v fresh in
      let s = delta_replacement changed p (print_delta json now r key p) in
      let there : r' ≡ stored r key s (projected json now r key s).0 = ground arith in
      (
        s,
        record {
          event_id = p.event_id;
          source_seq = p.source_seq;
          fingerprint = print_delta json now r key p;
          payload = some p.change;
        },
        rw there (lookup-insert_self StreamKey-discrete key s r.streams),
        lookup-insert_self ℕ_discrete p.event_id _ changed.events_by_id,
        refl,
        refl,
      )

  snapshot-IsValid :
      (now : String) (r r' : Repository) (key : StreamKey) (p : SnapshotPayload) (o : CommitOutcome)
      → IsValid r
      → ingest_snapshot json now r key p ≡ ok (o, r')
      → IsValid r'
  snapshot-IsValid now r r' key p o v returned =
      let (o', s, found, w, no_gap, sent, outcome) = ingest_snapshot-Outcome json now r key p v in
      let same : s ≡ r' = ground arith in rw (← same) w

  delta-IsValid :
      (now : String) (r r' : Repository) (key : StreamKey) (p : DeltaPayload) (o : CommitOutcome)
      → IsValid r
      → ingest_delta json now r key p ≡ ok (o, r')
      → IsValid r'
  delta-IsValid now r r' key p o v returned =
      let (o', s, found, w, next, outcome) = ingest_delta-Outcome json now r key p v in
      let same : s ≡ r' = ground arith in rw (← same) w

  -- After a snapshot was accepted on a valid repository, and after any further calls of the service,
  -- another one under its id is answered with the repository unchanged: as a duplicate if its content
  -- has the same fingerprint, and as rejected otherwise.
  pub resend_snapshot :
      (now later : String) (r r' r'' : Repository) (key : StreamKey) (p q : SnapshotPayload)
      (o : CommitOutcome) (cs : List Call)
      → IsValid r
      → ingest_snapshot json now r key p ≡ ok (o, r')
      → o.status ≡ accepted
      → run json r' cs ≡ ok r''
      → q.snapshot_id ≡ p.snapshot_id
      → (o' : CommitOutcome) × (ingest_snapshot json later r'' key q ≡ ok (o', r''))
        × (o'.status
            ≡ resend_status
                (json.of_snapshot p.through_seq p.chats p.messages)
                (json.of_snapshot q.through_seq q.chats q.messages))
  resend_snapshot now later r r' r'' key p q o cs v returned was_accepted ran same_id =
      elim (ingest_snapshot-cases json now r key p) [
        | inl (o', returned', why) ↦ absurd (ground arith)
        | inr fresh ↦
            let (s, sn, known, seen, print_is) =
              snapshot_recorded now r r' key p o v returned fresh in
            let valid = snapshot-IsValid now r r' key p o v returned in
            let (t, there, more) = run-Keeps json r' r'' cs valid ran key s known in
            let still = more.snapshots p.snapshot_id sn seen in
            let again = recorded_snapshot later r'' key q t sn there (rw same_id still) in
            (again.0, again.1, rw (← print_is) again.2)
      ]

  -- After a delta was accepted on a valid repository, and after any further calls of the service,
  -- another one under its event id and its sequence is answered with the repository unchanged: as a
  -- duplicate if its change has the same fingerprint, and as rejected otherwise; one under its event id
  -- and another sequence is rejected with the repository unchanged.
  pub resend_delta :
      (now later : String) (r r' r'' : Repository) (key : StreamKey) (p q : DeltaPayload)
      (o : CommitOutcome) (cs : List Call)
      → IsValid r
      → ingest_delta json now r key p ≡ ok (o, r')
      → o.status ≡ accepted
      → run json r' cs ≡ ok r''
      → q.event_id ≡ p.event_id
      → (o' : CommitOutcome) × (ingest_delta json later r'' key q ≡ ok (o', r''))
        × (o'.status ≡ (
            if holds (ℕ_discrete p.source_seq q.source_seq)
            then resend_status
                (json.of_delta p.source_seq p.change)
                (json.of_delta q.source_seq q.change)
            else rejected))
  resend_delta now later r r' r'' key p q o cs v returned was_accepted ran same_id =
      elim (ingest_delta-cases json now r key p) [
        | inl (o', returned', at, ne) ↦ absurd (ground arith)
        | inr fresh ↦
            let (s, ev, known, seen, at, print_is) =
              event_recorded now r r' key p o v returned fresh in
            let valid = delta-IsValid now r r' key p o v returned in
            let (t, there, more) = run-Keeps json r' r'' cs valid ran key s known in
            let still = more.events p.event_id ev seen in
            let again = recorded_event later r'' key q t ev there (rw same_id still) in
            let told : (if holds (ℕ_discrete ev.source_seq q.source_seq)
                  then resend_status ev.fingerprint (json.of_delta q.source_seq q.change)
                  else rejected)
                ≡ (if holds (ℕ_discrete p.source_seq q.source_seq)
                    then resend_status (json.of_delta p.source_seq p.change)
                        (json.of_delta q.source_seq q.change)
                    else rejected) =
              rw (at, print_is) refl in
            (again.0, again.1, again.2 ∙ told)
      ]
