-- ===== src/Transport/Expiry.antt =====
-- After `expire`, a command is delivered only to an Agent with a fresh heartbeat.
use onlyfans_conversational.Prelude.{ℕ, String, String-discrete, some, ◌≡◌, ◌⊎◌}
use onlyfans_conversational.Prelude.Dict
use onlyfans_conversational.Prelude.Dict.{Dict, lookup-insert}
use onlyfans_conversational.Transport.Types.{Sessions}
use onlyfans_conversational.Transport.Steps.{IsFresh}

-- The account is fresh already, or its active lease is still to come in the list.
abbrev IsCovered : ℕ → Dict String ℕ → Sessions → String → Type 0
IsCovered now es s a =
    (id : ℕ)
    → Dict.lookup String-discrete a s.active_agents ≡ some id
    → IsFresh now s a ⊎ (Dict.lookup String-discrete a es ≡ some id)
