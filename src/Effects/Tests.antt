-- ===== src/Effects/Tests.antt =====
-- Two processes and one effect: a claim, what others try, the completion, and a replay.
use euroclaw.Json.{Json}
use euroclaw.Base.Eff.{returned, thrown}
use euroclaw.Storage.Table.{find_one, create, update, assign_one}
use euroclaw.Storage.Table.Keyed.{find_key}
use euroclaw.Effects.{claim, complete}
use euroclaw.Effects.Model.{
  EffectRecord, EffectClaim, ClaimInput, Effects, read, completed_effect, new_effect, same_effect,
  reused,
}
use euroclaw.Effects.Ops.{Op, claims, completes, fails, append_row, perform_all}
use euroclaw.Effects.Once.{complete-claim}
use euroclaw.Effects.Fencing.{claim-claim}
use euroclaw.Prelude.{
  String, ◌≡◌, refl, Bool, true, none, some, List, [], ◌∷◌, arith, if◌then◌else◌,
}

abbrev same_text : String → String
same_text t = t

abbrev any_json : Json → Bool
any_json j = true

abbrev send : ClaimInput
send = record {
  id = "e1";
  tool_name = "send_mail";
  input_hash = "h1";
  compensation = none;
  now = 5;
  lease_ttl_ms = some 100;
  reclaim_expired = none;
}

abbrev sent : Effects
sent = record { effect = new_effect send; lease_token_hash = some "mine" } ∷ []

claims_send :
    claim same_text append_row send "mine" []
    ≡ (returned (EffectClaim.claimed (new_effect send) "mine" 105), sent)
unfolding claim read find_one create
claims_send = refl

abbrev others : List Op
others =
    claims (record send { now = 50 }) "theirs"
    ∷ completes "e1" "theirs" none 60
    ∷ fails "e2" "mine" Json.null 70
    ∷ []

abbrev late : ClaimInput
late = record send { now = 104 }

claim-claim_example :
    (claim same_text append_row late "other" (perform_all same_text any_json others sent) ≡ (
      returned (EffectClaim.in_progress (new_effect send) (some 105)),
      perform_all same_text any_json others sent,
    ))
    × ((complete same_text any_json "e1" "mine"
          (some Json.null)
          90
          (perform_all same_text any_json others sent)).0
        ≡ returned (completed_effect (some Json.null) 90 (new_effect send)))
claim-claim_example =
    claim-claim same_text any_json send "mine" "mine" 105 (new_effect send) [] sent tt claims_send
      others (ground arith, (refl, (refl, tt))) late "other" (some Json.null) 90 refl (ground arith)
      refl (ground arith) refl

abbrev mailed : EffectRecord
mailed = completed_effect (some Json.null) 90 (new_effect send)

abbrev done : Effects
done = record { effect = mailed; lease_token_hash = none } ∷ []

completes_send :
    complete same_text any_json "e1" "mine" (some Json.null) 90 sent ≡ (returned mailed, done)
unfolding complete update find_one assign_one
completes_send = refl

complete-claim_example :
    claim same_text append_row send "again" (perform_all same_text any_json others done) ≡ (
      if same_effect send mailed then returned (EffectClaim.completed mailed) else thrown reused,
      perform_all same_text any_json others done,
    )
unfolding find_key
complete-claim_example =
    complete-claim same_text any_json "e1" "mine" (some Json.null) 90 sent done mailed (refl, tt)
      completes_send others send "again" refl
