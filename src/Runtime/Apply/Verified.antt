-- ===== src/Runtime/Apply/Verified.antt =====
-- packages/core/src/runtime.ts: what the verification behind an application rests on.
use desired_state_protocol.Common.{
  ℕ, true, false, Option, none, some, JsString, ◌≡◌, refl, ap, arith,
}
use desired_state_protocol.Protocol.Errors.{Result, return, throw, dsp, other, unsettled}
use desired_state_protocol.Protocol.Risk.{Actor}
use desired_state_protocol.Protocol.Plan.{
  OperationRecord, OperationStatus, VerificationResult, VerificationStatus, ContractCheck,
}
use desired_state_protocol.Protocol.Document.{DesiredStateDocument}
use desired_state_protocol.Verification.{
  VerifyInput, verify_desired_state, verification_failed_result,
}
use desired_state_protocol.Store.Rows.{PlanRecord}
use desired_state_protocol.Runtime.State.{
  Runtime, RuntimeState, Provider, CurrentState, ◌>>=◌, and_then, pure, call, audit, ask,
}
use desired_state_protocol.Runtime.Runs.{Given, Gives, step-Gives, weaken-Gives}
use desired_state_protocol.Runtime.Gates.{read_now}
use desired_state_protocol.Runtime.Parts.{verified_status, is_satisfied, contract_fails}
use desired_state_protocol.Runtime.Verify.{
  verify_observed, verify_through, verification_of, settle_verification, run_verification,
}

-- The contract that a verification was given, if any, is met.
abbrev pub IsMet : Option ContractCheck → Type 0
IsMet contract = (check : ContractCheck) → contract ≡ some check → check.satisfied ≡ true

contract-IsMet :
    (contract : Option ContractCheck) → contract_fails contract ≡ false → IsMet contract
unfolding contract_fails
contract-IsMet none h check e = cc
contract-IsMet (some found) h check e =
    let same : found.satisfied ≡ check.satisfied =
      ap (λ o. elim o [ none ↦ found.satisfied | some c ↦ c.satisfied ]) e in
    ground arith

satisfied_of :
    (status : VerificationStatus)
    → is_satisfied status ≡ true
    → status ≡ VerificationStatus.satisfied
unfolding is_satisfied
satisfied_of VerificationStatus.satisfied h = refl
satisfied_of VerificationStatus.not_satisfied h = cc
satisfied_of VerificationStatus.partially_satisfied h = cc
satisfied_of VerificationStatus.verification_failed h = cc

pub completed_of :
    (status : OperationStatus) (v : VerificationResult)
    → verified_status status v ≡ OperationStatus.completed
    → (status ≡ OperationStatus.completed)
      × (v.status ≡ VerificationStatus.satisfied)
      × IsMet v.contract
unfolding verified_status
completed_of OperationStatus.completed v h =
    (refl, satisfied_of v.status (ground arith), contract-IsMet v.contract (ground arith))
completed_of OperationStatus.created v h = cc
completed_of OperationStatus.running v h = cc
completed_of OperationStatus.partially_completed v h = cc
completed_of OperationStatus.failed v h = cc
completed_of OperationStatus.verification_failed v h = cc
completed_of OperationStatus.goal_not_satisfied v h = cc
completed_of OperationStatus.cancelled v h = cc

-- What a call is told to return
told :
    {A : Type 0} {Q : A → Type 0} (r : Result A) (s : RuntimeState)
    → ((a : A) → r ≡ return a → Q a)
    → Given (λ a _. Q a) r s
told (return a) s h = h a refl
told (throw e) s h = tt

call-Gives :
    {A : Type 0} {Q : A → Type 0} (r : Result A) {s : RuntimeState}
    → ((a : A) → r ≡ return a → Q a)
    → Gives (λ a _. Q a) (call r) s
unfolding call
call-Gives r {s} h = record { given = told r s h }

module _ (runtime : Runtime) where
  -- The verification compares what the provider makes of the document with what it makes of a state
  -- that it reported.
  abbrev pub IsCompared : PlanRecord → Provider → VerificationResult → Type 0
  IsCompared stored provider v =
      (input : VerifyInput) × (tick : ℕ) × (observed : CurrentState) × (provider.inspect tick
          stored.desired_state
        ≡ return observed)
      × (provider.normalize_current observed ≡ return input.observed)
      × (provider.normalize_desired stored.desired_state ≡ return input.desired)
      × (verify_desired_state runtime.number_text runtime.sha256_hex input ≡ return v)

  observed-Gives :
      (op : OperationRecord) (stored : PlanRecord) (provider : Provider) (s : RuntimeState)
      → Gives (λ v _. IsCompared stored provider v) (verify_observed runtime op stored provider) s
  unfolding verify_observed ask call
  observed-Gives op stored provider s = step-Gives _ λ observed seen.
      step-Gives _ λ projection current. step-Gives _ λ desired wanted. step-Gives _ λ time _.
        step-Gives _ λ contract _. call-Gives _ λ v verified. (
          record {
            operation_id = op.id;
            desired = desired;
            observed = projection;
            resource_types = runtime.resource_types;
            now = time;
            contract = contract;
          },
          s.tick,
          observed,
          seen,
          current,
          wanted,
          verified,
        )

  -- If the provider has no verification of its own, a satisfied one compares the resources.
  abbrev pub IsFounded : PlanRecord → Provider → VerificationResult → Type 0
  IsFounded stored provider v =
      v.status ≡ VerificationStatus.satisfied
      → provider.verify ≡ none
      → IsCompared stored provider v

  settled :
      (op : OperationRecord) (actor : Actor) (Q : VerificationResult → Type 0)
      (r : Result VerificationResult) (s : RuntimeState)
      → Given (λ v _. Q v) r s
      → ((reason : JsString) (time : ℕ) → Q (verification_failed_result op.id reason time none))
      → Gives (λ v _. Q v) (settle_verification runtime op actor r) s
  unfolding settle_verification ◌>>=◌ and_then audit pure call read_now ask
  settled op actor Q (return v) s q failed = record { given = q }
  settled op actor Q (throw unsettled) s q failed = record { given = tt }
  settled op actor Q (throw (dsp e)) s q failed = record { given = failed _ _ }
  settled op actor Q (throw other) s q failed = record { given = failed _ _ }

  through-Given :
      (own : Option (ℕ → DesiredStateDocument → OperationRecord → Result VerificationResult))
      (op : OperationRecord) (stored : PlanRecord) (provider : Provider) (s : RuntimeState)
      → Gives
          (λ v _. own ≡ none → IsCompared stored provider v)
          (verify_through runtime own op stored provider)
          s
  unfolding verify_through ask
  through-Given none op stored provider s =
      weaken-Gives (observed-Gives op stored provider s) λ v _ compared _. compared
  through-Given (some verify) op stored provider s = record {
    given = told {Q = λ v. some verify ≡ none → IsCompared stored provider v} _ _ (λ v _ e. cc);
  }

  pub verification-IsFounded :
      (op : OperationRecord) (stored : PlanRecord) (provider : Provider) (actor : Actor)
      (s : RuntimeState)
      → Gives
          (λ v _. IsFounded stored provider v)
          (run_verification runtime op stored provider actor)
          s
  unfolding run_verification verification_of verification_failed_result
  verification-IsFounded op stored provider actor s =
      let run = verify_through runtime provider.verify op stored provider s in
      record {
        given =
            (settled op actor (IsFounded stored provider) run.0 run.1
              (weaken-Gives (through-Given provider.verify op stored provider s)
                λ v _ compared _ none_own. compared none_own).given
              (λ reason time h. cc)).given;
      }
