-- ===== src/Activation/Tests.antt =====
-- Runs of the activation ledger, and an instance of each of its theorems.
use onlyfans_conversational.Prelude.{String, String-discrete, ℕ_discrete, none, some, ◌≡◌, refl, ok}
use onlyfans_conversational.Prelude.Dict
use onlyfans_conversational.Activation.Types.{
  CanonicalIdentity, BuildOwner, ActivationIdentity, ProjectionActivationIntent, Ledger, new_ledger,
  same_canonical, ActivationState,
}
use onlyfans_conversational.Activation.Ledger.{
  IdentityReader, register_publication_epoch, revoke_publication_epoch, publication_epoch_is_open,
  find_intent, is_busy, new_intent, store_new, save_epoch, reserve_new, reserve, complete,
}
use onlyfans_conversational.Activation.Steps.{Follows, Reach, registers, reserves, completes, later}
use onlyfans_conversational.Activation.Invariant.{IsLedger}
use onlyfans_conversational.Activation.Preservation.{Reach-IsLedger}
use onlyfans_conversational.Activation.Epochs.{IsBarred, Follows-IsBarred}
use onlyfans_conversational.Activation.Witnesses.{Remains, reached-Remains}

abbrev reference : String → String
reference a = a

abbrev head : CanonicalIdentity
head = record { revision = 3; content_digest = "d" }

abbrev reader : IdentityReader
reader a = some head

abbrev owner : BuildOwner
owner = record {
  owner_id = "o";
  pid = 1;
  process_started_at = "t";
  instance_nonce = "n";
  capability_digest = "c";
}

abbrev wanted : ActivationIdentity
wanted = record {
  creator_account_id = "acct";
  account_ref = "acct";
  generation_id = "g1";
  canonical = head;
  projection_digest = "p";
  graph_digest = "q";
  pipeline_revision = "r1";
  pipeline_config_digest = "x";
  pipeline_identity_digest = "y";
  expected_previous_generation_id = none;
  expected_previous_revision = none;
  publication_epoch = "e1";
  writer_owner = owner;
  publication_capability_digest = "cap";
}

abbrev intent : ProjectionActivationIntent
intent = record {
  intent_id = 7;
  identity = wanted;
  witness_sequence = 1;
  state = ActivationState.reserved;
  reserved_at = 20;
  completed_at = none;
  cancelled_at = none;
}

abbrev opened : Ledger
opened = (register_publication_epoch "e1" "scheduler" "cap" new_ledger).1

abbrev reserved_one : Ledger
reserved_one = (reserve reference reader 7 20 wanted opened).1

no_intent : find_intent 7 opened ≡ none
unfolding register_publication_epoch save_epoch find_intent Dict.lookup
no_intent = refl

one-Reach : Reach reference reserved_one
one-Reach =
    later (later Follows.same (registers "e1" "scheduler" "cap"))
      (reserves reader 7 20 wanted no_intent)

found_one : find_intent 7 reserved_one ≡ some intent
unfolding register_publication_epoch save_epoch find_intent reserve reserve_new new_intent store_new
    publication_epoch_is_open same_canonical is_busy Dict.lookup Dict.insert String-discrete
    ℕ_discrete
found_one = refl

abbrev witness : ProjectionActivationIntent
witness = record intent { state = ActivationState.completed; completed_at = some 21 }

Reach-IsLedger_example : IsLedger reserved_one
Reach-IsLedger_example = Reach-IsLedger reference reserved_one one-Reach

reached-Remains_example : Remains 7 intent (complete reader 21 intent reserved_one).1
reached-Remains_example =
    reached-Remains reference reserved_one (complete reader 21 intent reserved_one).1 7 intent
      one-Reach (later Follows.same (completes reader 21 intent)) found_one

revoked_run : (revoke_publication_epoch "e1" "scheduler" "cap" reserved_one).0 ≡ ok tt
unfolding register_publication_epoch revoke_publication_epoch save_epoch find_intent reserve
    reserve_new new_intent store_new publication_epoch_is_open same_canonical is_busy Dict.lookup
    Dict.insert String-discrete ℕ_discrete
revoked_run = refl

Follows-IsBarred_example :
    IsBarred reference "e1" (revoke_publication_epoch "e1" "scheduler" "cap" reserved_one).1
Follows-IsBarred_example =
    Follows-IsBarred reference "e1" "scheduler" "cap" reserved_one
      (revoke_publication_epoch "e1" "scheduler" "cap" reserved_one).1 revoked_run Follows.same
