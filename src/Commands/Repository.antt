-- ===== src/Commands/Repository.antt =====
-- `InMemoryCommandRepository` of app/services/command_execution.py.
use onlyfans_conversational.Prelude.{
  ℕ, String, String-discrete, ℕ_discrete, Option, none, some, List, [], filter, holds,
}
use onlyfans_conversational.Prelude.Dict
use onlyfans_conversational.Commands.Types.{CommandRecord, Repository}

unfoldable pub get : Repository → ℕ → Option CommandRecord
get r command_id = Dict.lookup ℕ_discrete command_id r

unfoldable pub save : Repository → CommandRecord → Repository
save r c = Dict.insert ℕ_discrete c.command_id c r

unfoldable pub list : Repository → Option String → List CommandRecord
list r none = Dict.values r
list r (some account) =
    filter (λ c. holds (String-discrete c.creator_account_id account)) (Dict.values r)

unfoldable pub reset : Repository → Repository
reset r = []
