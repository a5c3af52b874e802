-- ===== src/Ingestion/Records.antt =====
-- What the service has recorded of a snapshot or an event stays recorded, whatever it is called with.
use onlyfans_conversational.Prelude.{
  ℕ, String, ℕ_discrete, none, some, List, [], ◌∷◌, ◌≡◌, refl, arith, ok, inl, inr, Ensures-ok,
}
use onlyfans_conversational.Prelude.Dict
use onlyfans_conversational.Prelude.Dict.{lookup-insert}
use onlyfans_conversational.Ingestion.Types.{
  StreamKey, StreamKey-discrete, RawStreamState, StoredSnapshot, StoredEvent, CommitOutcome,
  SnapshotPayload, DeltaPayload, Fingerprints, AccountReadModel,
}
use onlyfans_conversational.Ingestion.RawChange.{apply_raw_change}
use onlyfans_conversational.Ingestion.Repository
use onlyfans_conversational.Ingestion.Repository.{Repository}
use onlyfans_conversational.Ingestion.Invariant.{SameSequencing, apply_raw_change-SameSequencing}
use onlyfans_conversational.Ingestion.Commits.{IsValid, stored}
use onlyfans_conversational.Ingestion.Service.{
  snapshot_replacement, delta_replacement, ingest_snapshot, ingest_delta,
}
use onlyfans_conversational.Ingestion.Outcomes.{
  fresh_snapshot-stored, fresh_delta-stored, stream-stored,
}
use onlyfans_conversational.Ingestion.Handlers.{
  projected, current, print, print_delta, ingest_snapshot-cases, ingest_delta-cases,
}
use onlyfans_conversational.Ingestion.Histories.{Call, snapshot, delta, handle, handle-Forward, run}

-- The stream has recorded the snapshot and the event that the arguments give, by their fingerprints.
abbrev pub RecordsSnapshot : RawStreamState → ℕ → String → Type 0
RecordsSnapshot s id fingerprint =
    (sn : StoredSnapshot) × (Dict.lookup ℕ_discrete id s.snapshots_by_id ≡ some sn)
    × (sn.fingerprint ≡ fingerprint)

abbrev pub RecordsEvent : RawStreamState → ℕ → ℕ → String → Type 0
RecordsEvent s id source_seq fingerprint =
    (ev : StoredEvent) × (Dict.lookup ℕ_discrete id s.events_by_id ≡ some ev)
    × (ev.source_seq ≡ source_seq)
    × (ev.fingerprint ≡ fingerprint)

-- All that `s` has recorded, `t` has.
pub record Remembers (s t : RawStreamState) : Type 0 where
  pub snapshots :
      (id : ℕ) (sn : StoredSnapshot)
      → Dict.lookup ℕ_discrete id s.snapshots_by_id ≡ some sn
      → Dict.lookup ℕ_discrete id t.snapshots_by_id ≡ some sn
  pub events :
      (id : ℕ) (ev : StoredEvent)
      → Dict.lookup ℕ_discrete id s.events_by_id ≡ some ev
      → Dict.lookup ℕ_discrete id t.events_by_id ≡ some ev

-- Every stream that `r` has, `r'` has with all that it recorded.
abbrev pub Keeps : Repository → Repository → Type 0
Keeps r r' =
    (k : StreamKey) (s : RawStreamState)
    → Repository.stream r k ≡ some s
    → (t : RawStreamState) × (Repository.stream r' k ≡ some t) × Remembers s t

Remembers-same : (s : RawStreamState) → Remembers s s
Remembers-same s = record { snapshots = λ id sn h. h; events = λ id ev h. h }

Remembers-trans : (s t u : RawStreamState) → Remembers s t → Remembers t u → Remembers s u
Remembers-trans s t u a b = record {
  snapshots = λ id sn h. b.snapshots id sn (a.snapshots id sn h);
  events = λ id ev h. b.events id ev (a.events id ev h);
}

Keeps-same : (r r' : Repository) → r' ≡ r → Keeps r r'
Keeps-same r r' same k s known = (s, rw same known, Remembers-same s)

Keeps-trans : (a b c : Repository) → Keeps a b → Keeps b c → Keeps a c
Keeps-trans a b c first second k s known =
    let (t, at, more) = first k s known in
    let (u, there, most) = second k t at in (u, there, Remembers-trans s t u more most)

-- Storing a stream that remembers the one it replaces.
stored-Keeps :
    (r : Repository) (key : StreamKey) (s' : RawStreamState) (account : AccountReadModel)
    → ((s : RawStreamState) → Repository.stream r key ≡ some s → Remembers s s')
    → Keeps r (stored r key s' account)
unfolding Repository.stream
stored-Keeps r key s' account more k s known = elim (StreamKey-discrete k key) [
  | yes same ↦
      let own : Repository.stream r key ≡ some s = rw (← same) known in
      (s', rw same (stream-stored r key s' account), more s own)
  | no other ↦ (
    s,
    ground (arith, lookup-insert StreamKey-discrete k key s' r.streams, other, known),
    Remembers-same s,
  )
]

replacement-Remembers :
    (s : RawStreamState) (p : SnapshotPayload) (print : String) (chats : _) (messages : _)
    → Dict.lookup ℕ_discrete p.snapshot_id s.snapshots_by_id ≡ none
    → Remembers s (snapshot_replacement s p print chats messages)
replacement-Remembers s p print chats messages new = record {
  snapshots = λ id sn known. ground (
    arith,
    lookup-insert ℕ_discrete id p.snapshot_id
        (record { snapshot_id = p.snapshot_id; through_seq = p.through_seq; fingerprint = print })
        s.snapshots_by_id,
    new,
    known,
  );
  events = λ id ev known. known;
}

extended-Remembers :
    (s changed : RawStreamState) (p : DeltaPayload) (print : String)
    → SameSequencing s changed
    → Dict.lookup ℕ_discrete p.event_id s.events_by_id ≡ none
    → Remembers s (delta_replacement changed p print)
extended-Remembers s changed p print same new = record {
  snapshots = λ id sn known. rw same.3 known;
  events = λ id ev known.
      let kept : Dict.lookup ℕ_discrete id changed.events_by_id ≡ some ev = rw same.1 known in
      let absent : Dict.lookup ℕ_discrete p.event_id changed.events_by_id ≡ none = rw same.1 new in
      ground (
        arith,
        lookup-insert ℕ_discrete id p.event_id
            (record {
              event_id = p.event_id;
              source_seq = p.source_seq;
              fingerprint = print;
              payload = some p.change;
            })
            changed.events_by_id,
        absent,
        kept,
      );
}

module _ (json : Fingerprints) where
  snapshot-Keeps :
      (now : String) (r r' : Repository) (key : StreamKey) (p : SnapshotPayload) (o : CommitOutcome)
      → IsValid r
      → ingest_snapshot json now r key p ≡ ok (o, r')
      → Keeps r r'
  snapshot-Keeps now r r' key p o v returned = elim (ingest_snapshot-cases json now r key p) [
    | inl (o', refused, why) ↦ Keeps-same r r' (ground arith)
    | inr fresh ↦
        let (chats, messages, stores, h, ahead, sent) =
          fresh_snapshot-stored json now r key p v fresh in
        let t = current json now r key p in
        let s = snapshot_replacement t p (print json now r key p) chats messages in
        let there : r' ≡ stored r key s (projected json now r key s).0 = ground arith in
        rw there (
          stored-Keeps r key s (projected json now r key s).0 λ before known.
            let is_current : t ≡ before = rw known refl in
            rw (← is_current)
              (replacement-Remembers t p (print json now r key p) chats messages fresh.2))
  ]

  delta-Keeps :
      (now : String) (r r' : Repository) (key : StreamKey) (p : DeltaPayload) (o : CommitOutcome)
      → IsValid r
      → ingest_delta json now r key p ≡ ok (o, r')
      → Keeps r r'
  delta-Keeps now r r' key p o v returned = elim (ingest_delta-cases json now r key p) [
    | inl (o', refused, at, ne) ↦ Keeps-same r r' (ground arith)
    | inr fresh ↦
        let (changed, stores, h, next, t, known, unseen, applies) =
          fresh_delta-stored json now r key p v fresh in
        let s = delta_replacement changed p (print_delta json now r key p) in
        let there : r' ≡ stored r key s (projected json now r key s).0 = ground arith in
        let same =
          Ensures-ok (SameSequencing t) (apply_raw_change t p.change) changed
            (apply_raw_change-SameSequencing t p.change) applies in
        rw there (
          stored-Keeps r key s (projected json now r key s).0 λ before own.
            let is_current : t ≡ before = cc in
            rw (← is_current)
              (extended-Remembers t changed p (print_delta json now r key p) same unseen))
  ]

  handle-Keeps :
      (r r' : Repository) (c : Call) (o : CommitOutcome)
      → IsValid r
      → handle json r c ≡ ok (o, r')
      → Keeps r r'
  unfolding handle
  handle-Keeps r r' (snapshot key now p) o v returned = snapshot-Keeps now r r' key p o v returned
  handle-Keeps r r' (delta key now p) o v returned = delta-Keeps now r r' key p o v returned

  -- Any calls of the service keep what is recorded.
  pub run-Keeps :
      (r r' : Repository) (cs : List Call) → IsValid r → run json r cs ≡ ok r' → Keeps r r'
  unfolding run
  run-Keeps r r' [] v done = Keeps-same r r' (ground arith)
  run-Keeps r r' (c ∷ cs) v done =
      let (o, s, returned, w, forward) = handle-Forward json r c v in
      Keeps-trans r s r' (handle-Keeps r s c o v returned)
        (run-Keeps s r' cs w (ground (arith, done, returned)))
