-- ===== src/Graph/Tests.antt =====
-- Runs of the graph repository, and an instance of its theorem.
use onlyfans_conversational.Prelude.{
  String, String-discrete, ℕ_discrete, none, some, Bool, true, ◌≡◌, refl,
}
use onlyfans_conversational.Prelude.Dict
use onlyfans_conversational.Prelude.Sorting.{sort, insert}
use onlyfans_conversational.Graph.Repository.{
  GenerationStatus, GraphRepository, Retention, new_repository, find, save, begin_generation,
  validate, activate, promote, collect, collected, erase_all,
}
use onlyfans_conversational.Graph.Activity.{IsActive}
use onlyfans_conversational.Graph.Histories.{
  GraphReach, begins, validates, activates, GraphReach-IsActive,
}

abbrev any_ref : String → Bool
any_ref p = true

abbrev keep_one : Retention
keep_one = record { rollback_retention = 1; gc_batch_size = 8 }

abbrev begun : GraphRepository
begun = (begin_generation any_ref "acct" 3 "owner" 120 5 10 new_repository).1

abbrev ready : GraphRepository
ready = (validate "owner" 11 5 begun).1

abbrev live : GraphRepository
live = (activate keep_one 5 none (some "owner") 12 ready).1

live_generation :
    find 5 live
    ≡ some (record {
      partition_key = "acct";
      source_revision = 3;
      owner_token = "owner";
      lease_expires_at = 130;
      status = GenerationStatus.active;
    })
unfolding find save begin_generation validate activate promote collect collected erase_all sort
    insert Dict.lookup Dict.insert Dict.erase String-discrete ℕ_discrete
live_generation = refl

absent : find 5 new_repository ≡ none
unfolding find Dict.lookup
absent = refl

live-Reach : GraphReach any_ref keep_one live
live-Reach =
    GraphReach.next
      (GraphReach.next (GraphReach.next GraphReach.new (begins "acct" 3 "owner" 120 5 10 absent))
        (validates "owner" 11 5))
      (activates 5 none (some "owner") 12)

GraphReach-IsActive_example : IsActive live
GraphReach-IsActive_example = GraphReach-IsActive any_ref keep_one live live-Reach
