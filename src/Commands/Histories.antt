-- ===== src/Commands/Histories.antt =====
-- Whole histories of the command service, what runs during a delivery included.
use onlyfans_conversational.Prelude.{ℕ, String, Option, none, some, ◌≡◌, refl, ok, Ensures-ok}
use onlyfans_conversational.Commands.Types.{
  CommandRecord, CommandDeliveryTarget, CommandSender, ExecutePayload, Repository, Validator,
  ResultPayload, RecordedResult,
}
use onlyfans_conversational.Commands.Service.{IssueRequest, issue, reissue}
use onlyfans_conversational.Commands.Results.{record_result, expire}
use onlyfans_conversational.Commands.Invariant.{IsValid}
use onlyfans_conversational.Commands.Preservation.{
  IsSaved, KeepsAny, issue-IsSaved, reissue-IsSaved, record_result-IsValid, expire-IsValid,
}

-- The calls that lead from one repository to another: any of the service's, one after the other,
-- with any others while a delivery is awaited.
pub data History (validator : Validator) : Repository → Repository → Type 0 where
  nothing : {r : Repository} → History validator r r
  issues :
      {r r' : Repository} {c : CommandRecord} (q : IssueRequest)
      → ((sender : CommandSender)
          → q.sender ≡ some sender
          → (p : ExecutePayload) (m : Repository) → History validator m (sender p m).1)
      → issue validator r q ≡ ok (c, r')
      → History validator r r'
  reissues :
      {r r' : Repository} {c : CommandRecord} (k : ℕ) (target : Option CommandDeliveryTarget)
      (sending : Option CommandSender) (reason : String) (now later : ℕ)
      → ((sender : CommandSender)
          → sending ≡ some sender
          → (p : ExecutePayload) (m : Repository) → History validator m (sender p m).1)
      → reissue r k target sending reason now later ≡ ok (c, r')
      → History validator r r'
  records :
      {r r' : Repository} {x : RecordedResult} (p : ResultPayload) (received : ℕ)
      → record_result r p received ≡ ok (x, r')
      → History validator r r'
  expires : {r : Repository} (now : ℕ) → History validator r (expire now r).1
  both :
      {r m r' : Repository}
      → History validator r m
      → History validator m r'
      → History validator r r'

keeps_any :
    (sending : Option CommandSender)
    → ((sender : CommandSender)
        → sending ≡ some sender
        → (p : ExecutePayload) (m : Repository) → IsValid m
        → IsValid (sender p m).1)
    → KeepsAny sending
keeps_any none h = tt
keeps_any (some sender) h = h sender refl

-- Every history of the command service keeps a valid repository valid: whatever is issued,
-- redelivered, recorded and expired, in any order, also while deliveries are awaited, each stored
-- record stays under its own id and well formed.
pub History-IsValid :
    (validator : Validator) (r r' : Repository) → History validator r r' → IsValid r → IsValid r'
History-IsValid validator r r' nothing v = v
History-IsValid validator r r' (issues {c = c} q meanwhile e) v =
    let keeps =
      keeps_any q.sender
        (λ sender is p m. History-IsValid validator m (sender p m).1 (meanwhile sender is p m)) in
    (Ensures-ok (IsSaved q.command_id) (issue validator r q) (c, r')
      (issue-IsSaved validator r q v keeps) e).2
History-IsValid validator r r' (reissues {c = c} k target sending reason now later meanwhile e) v =
    let keeps =
      keeps_any sending
        (λ sender is p m. History-IsValid validator m (sender p m).1 (meanwhile sender is p m)) in
    (Ensures-ok (IsSaved k) (reissue r k target sending reason now later) (c, r')
      (reissue-IsSaved r k target sending reason now later v keeps) e).2
History-IsValid validator r r' (records {x = x} p received e) v =
    Ensures-ok (λ x. IsValid x.1) (record_result r p received) (x, r')
      (record_result-IsValid r p received v) e
History-IsValid validator r r' (expires now) v = expire-IsValid now r v
History-IsValid validator r r' (both {m = m} first second) v =
    History-IsValid validator m r' second (History-IsValid validator r m first v)
