-- ===== src/Ingestion/Replacements.antt =====
-- The stream that an accepted snapshot or delta leaves is well formed.
use onlyfans_conversational.Prelude.{
  ℕ, ◌+◌, ◌≤◌, String, ℕ_discrete, Option, none, some, ◌≡◌, refl, arith, ok, Ensures-ok,
}
use onlyfans_conversational.Prelude.Dict
use onlyfans_conversational.Prelude.Dict.{Dict, lookup-insert}
use onlyfans_conversational.Prelude.Entries.{All-imp, All-insert}
use onlyfans_conversational.Ingestion.Types.{
  RawChat, RawMessage, RawStreamState, StoredEvent, StoredSnapshot, SnapshotPayload, DeltaPayload,
}
use onlyfans_conversational.Ingestion.RawChange.{validated_snapshot, apply_raw_change}
use onlyfans_conversational.Ingestion.Invariant.{
  IsStream, IsSequenced, IsApplied, IsContent, validated_snapshot-IsContent,
  apply_raw_change-IsContent, SameSequencing, apply_raw_change-SameSequencing,
}
use onlyfans_conversational.Ingestion.Service.{
  fresh_stream, or_fresh, snapshot_replacement, delta_replacement,
}

fresh_stream-IsStream : IsStream fresh_stream
fresh_stream-IsStream = record {
  content = record {
    chats_distinct = tt;
    messages_distinct = tt;
    chats_named = tt;
    messages_placed = tt;
  };
  sequenced = record { events_applied = tt; seqs_below = tt; snapshots_below = tt };
}

pub or_fresh-IsStream :
    (o : Option RawStreamState)
    → ((s : RawStreamState) → o ≡ some s → IsStream s)
    → IsStream (or_fresh o)
or_fresh-IsStream none h = fresh_stream-IsStream
or_fresh-IsStream (some s) h = h s refl

abbrev SnapshotBelow : ℕ → ℕ × StoredSnapshot → Type 0
SnapshotBelow n e = e.1.through_seq ≤ n

abbrev SeqBelow : ℕ → ℕ × ℕ → Type 0
SeqBelow n e = e.0 ≤ n

pub snapshot_replacement-IsStream :
    (s : RawStreamState) (p : SnapshotPayload) (print : String) (chats : Dict String RawChat)
    (messages : Dict String RawMessage)
    → IsStream s
    → s.checkpoint ≤ p.through_seq
    → validated_snapshot p.chats p.messages ≡ ok (chats, messages)
    → IsStream (snapshot_replacement s p print chats messages)
snapshot_replacement-IsStream s p print chats messages h ahead valid = record {
  content =
      Ensures-ok (λ c. IsContent c.0 c.1) (validated_snapshot p.chats p.messages) (chats, messages)
        (validated_snapshot-IsContent p.chats p.messages) valid;
  sequenced = record {
    events_applied =
        All-imp (IsApplied s.checkpoint s.event_ids_by_seq)
          (IsApplied p.through_seq s.event_ids_by_seq) s.events_by_id
          (λ e a. (a.0, omega arith, a.2)) h.sequenced.events_applied;
    seqs_below =
        All-imp (SeqBelow s.checkpoint) (SeqBelow p.through_seq) s.event_ids_by_seq
          (λ e a. omega arith) h.sequenced.seqs_below;
    snapshots_below =
        All-insert ℕ_discrete (SnapshotBelow p.through_seq) p.snapshot_id _ s.snapshots_by_id
          (omega arith)
          (All-imp (SnapshotBelow s.checkpoint) (SnapshotBelow p.through_seq) s.snapshots_by_id
            (λ e a. omega arith) h.sequenced.snapshots_below);
  };
}

-- An applied event stays the one that its sequence names when a later sequence is recorded.
still-IsApplied :
    (n id : ℕ) (by_seq : Dict ℕ ℕ) (e : ℕ × StoredEvent)
    → IsApplied n by_seq e
    → IsApplied (n + 1) (Dict.insert ℕ_discrete (n + 1) id by_seq) e
still-IsApplied n id by_seq e a =
    (a.0, omega arith, ground (arith, lookup-insert ℕ_discrete e.1.source_seq (n + 1) id by_seq))

IsSequenced-delta :
    (s : RawStreamState) (p : DeltaPayload) (print : String)
    → IsSequenced s
    → p.source_seq ≡ s.checkpoint + 1
    → IsSequenced (delta_replacement s p print)
IsSequenced-delta s p print h next =
    let n = s.checkpoint + 1 in
    rw next (record {
      events_applied =
          All-insert ℕ_discrete
            (IsApplied n (Dict.insert ℕ_discrete n p.event_id s.event_ids_by_seq)) p.event_id _
            s.events_by_id
            (
              refl,
              omega arith,
              ground (arith, lookup-insert ℕ_discrete n n p.event_id s.event_ids_by_seq),
            )
            (All-imp (IsApplied s.checkpoint s.event_ids_by_seq)
              (IsApplied n (Dict.insert ℕ_discrete n p.event_id s.event_ids_by_seq)) s.events_by_id
              (still-IsApplied s.checkpoint p.event_id s.event_ids_by_seq) h.events_applied);
      seqs_below =
          All-insert ℕ_discrete (SeqBelow n) n p.event_id s.event_ids_by_seq (omega arith) (
            All-imp (SeqBelow s.checkpoint) (SeqBelow n) s.event_ids_by_seq (λ e a. omega arith)
              h.seqs_below);
      snapshots_below =
          All-imp (SnapshotBelow s.checkpoint) (SnapshotBelow n) s.snapshots_by_id
            (λ e a. omega arith) h.snapshots_below;
    })

same-IsSequenced : (s t : RawStreamState) → SameSequencing s t → IsSequenced s → IsSequenced t
same-IsSequenced s t same h = record {
  events_applied = rw (same.0, same.1, same.2) h.events_applied;
  seqs_below = rw (same.0, same.2) h.seqs_below;
  snapshots_below = rw (same.0, same.3) h.snapshots_below;
}

pub delta_replacement-IsStream :
    (s changed : RawStreamState) (p : DeltaPayload) (print : String)
    → IsStream s
    → p.source_seq ≡ s.checkpoint + 1
    → apply_raw_change s p.change ≡ ok changed
    → IsStream (delta_replacement changed p print)
delta_replacement-IsStream s changed p print h next applies =
    let same =
      Ensures-ok (SameSequencing s) (apply_raw_change s p.change) changed
        (apply_raw_change-SameSequencing s p.change) applies in
    record {
      content =
          Ensures-ok (λ t. IsContent t.chats t.messages) (apply_raw_change s p.change) changed
            (apply_raw_change-IsContent s p.change h.content) applies;
      sequenced =
          IsSequenced-delta changed p print (same-IsSequenced s changed same h.sequenced)
            (rw same.0 next);
    }
