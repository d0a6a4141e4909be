-- ===== src/Protocol/Dispute/Resolution.antt =====
-- What a dispute is decided by.
use transformer_vm_bank.Base.{
  ◌≡◌, ◌≢◌, ◌↔◌, Result, ok, arith, Bool-cases, Result-cases, inl, inr, ◌∙◌, if◌then◌else◌,
}
use transformer_vm_bank.Bytes.{Bytes, bytes_eq, bytes_eq_iff}
use transformer_vm_bank.Crypto.{Crypto}
use transformer_vm_bank.Contracts.Errors.{ContractError}
use transformer_vm_bank.Protocol.Propose
use transformer_vm_bank.Protocol.Propose.{Propose}
use transformer_vm_bank.Protocol.Execute
use transformer_vm_bank.Protocol.Execute.{Execute}
use transformer_vm_bank.Protocol.Dispute
use transformer_vm_bank.Protocol.Dispute.{
  Dispute, DisputeOutcome, slash_executor, dismiss_dispute, contract_result, resolve_dispute,
}

module _ (c : Crypto) (run : Bytes → Result ContractError Bytes) where
  -- The messages of a dispute that gets as far as the re-execution, which yields `actual`.
  pub record Reruns (p : Propose) (x : Execute) (d : Dispute) (actual : Bytes) : Type 0 where
    pub propose_signed : Propose.verify c p ≡ ok tt
    pub execute_signed : Execute.verify c x ≡ ok tt
    pub dispute_signed : Dispute.verify c d ≡ ok tt
    pub same_proposal : d.proposal_hash ≡ x.proposal_hash
    pub reruns : run d.witness ≡ ok actual

  abbrev pub verdict : Execute → Dispute → Bytes → DisputeOutcome
  verdict x d actual =
      if bytes_eq x.expected_output actual
      then dismiss_dispute d.disputer actual
      else slash_executor x.by actual

  pub resolve_dispute-Reruns :
      (p : Propose) (x : Execute) (d : Dispute) {actual : Bytes}
      → Reruns p x d actual
      → resolve_dispute c run p x d ≡ ok (verdict x d actual)
  unfolding resolve_dispute
  resolve_dispute-Reruns p x d r =
      ground (arith, bytes_eq_iff d.proposal_hash x.proposal_hash, r.reruns)

  decided :
      (p : Propose) (x : Execute) (d : Dispute) (o : DisputeOutcome)
      → resolve_dispute c run p x d ≡ ok o
      → (actual : Bytes) × Reruns p x d actual × (o ≡ verdict x d actual)
  unfolding resolve_dispute
  decided p x d o h = elim (Result-cases (run d.witness)) [
    | inr (e, failed) ↦ ground arith
    | inl (actual, e) ↦ (
      actual,
      record {
        propose_signed = ground arith;
        execute_signed = ground arith;
        dispute_signed = ground arith;
        same_proposal = ground (arith, bytes_eq_iff d.proposal_hash x.proposal_hash);
        reruns = e;
      },
      ground arith,
    )
  ]

  -- An executor is slashed exactly when the three messages are signed, the dispute and the execution
  -- name the same proposal, the contract runs on the witness of the dispute, and its output differs
  -- from the output that the execution claims; the slashed key is the execution's signer. Neither the
  -- output that the dispute claims nor the witness of the execution plays a part.
  pub slash_executor_iff :
      (p : Propose) (x : Execute) (d : Dispute) (pk out : Bytes)
      → (resolve_dispute c run p x d ≡ ok (slash_executor pk out))
        ↔ (Reruns p x d out × (x.expected_output ≢ out) × (pk ≡ x.by))
  slash_executor_iff p x d pk out = (
    λ h.
        let (actual, r, e) = decided p x d (slash_executor pk out) h in
        elim (Bool-cases (bytes_eq x.expected_output actual)) [
          | inl same ↦ ground arith
          | inr differ ↦
              let q : actual ≡ out = ground arith in
              rw (← q) (r, λ f. ground (arith, bytes_eq_iff x.expected_output actual), ground arith)
        ],
    λ (r, differ, e).
        resolve_dispute-Reruns p x d r ∙ ground (arith, bytes_eq_iff x.expected_output out),
  )

  -- Where the dispute shows the witness that was executed, an executor whose claim is the contract's
  -- output is never slashed: the dispute is dismissed, whatever output the disputer claims.
  pub honest_executor_dismissed :
      (p : Propose) (x : Execute) (d : Dispute)
      → Reruns p x d x.expected_output
      → resolve_dispute c run p x d ≡ ok (dismiss_dispute d.disputer x.expected_output)
  honest_executor_dismissed p x d r =
      resolve_dispute-Reruns p x d r
      ∙ ground (arith, bytes_eq_iff x.expected_output x.expected_output)

  -- The outcome that the module documents: the output of the re-execution against the output that
  -- the dispute claims, equal for a slashed executor and different for a dismissed dispute.
  abbrev pub documented : Execute → Dispute → Bytes → DisputeOutcome
  documented x d actual =
      if bytes_eq d.claimed_output actual
      then slash_executor x.by actual
      else dismiss_dispute d.disputer actual

  -- On a dispute that gets as far as the re-execution, the code returns the documented outcome exactly
  -- when one of the two claims is the output of the re-execution and the other is not. Where both are,
  -- it dismisses the dispute in place of slashing, and where neither is, it slashes in place of
  -- dismissing.
  pub resolve_dispute-documented_iff :
      (p : Propose) (x : Execute) (d : Dispute) {actual : Bytes}
      → Reruns p x d actual
      → (resolve_dispute c run p x d ≡ ok (documented x d actual))
        ↔ ((d.claimed_output ≡ actual) ↔ (x.expected_output ≢ actual))
  resolve_dispute-documented_iff p x d {actual} r =
      let decides = resolve_dispute-Reruns p x d r in
      let claimed = bytes_eq_iff d.claimed_output actual in
      let expected = bytes_eq_iff x.expected_output actual in
      elim (Bool-cases (bytes_eq d.claimed_output actual)) [
        | inl right ↦ elim (Bool-cases (bytes_eq x.expected_output actual)) [
          | inl honest ↦ (
            λ e. absurd (ground (arith, decides)),
            λ h. absurd (h.0 (claimed.0 right) (expected.0 honest)),
          )
          | inr wrong ↦ (
            λ e. (λ q f. ground (arith, expected), λ f. claimed.0 right),
            λ h. ground (arith, decides),
          )
        ]
        | inr wrong ↦ elim (Bool-cases (bytes_eq x.expected_output actual)) [
          | inl honest ↦ (
            λ e. (λ q. absurd (ground (arith, claimed)), λ f. absurd (f (expected.0 honest))),
            λ h. ground (arith, decides),
          )
          | inr false_claim ↦ (
            λ e. absurd (ground (arith, decides)),
            λ h. absurd (ground (arith, claimed.1 (h.1 (λ f. ground (arith, expected))))),
          )
        ]
      ]

  -- The proposal is only checked for its own signature: any two signed proposals give one verdict.
  pub resolve_dispute_any_propose :
      (p q : Propose) (x : Execute) (d : Dispute)
      → Propose.verify c p ≡ ok tt
      → Propose.verify c q ≡ ok tt
      → resolve_dispute c run p x d ≡ resolve_dispute c run q x d
  unfolding resolve_dispute
  resolve_dispute_any_propose p q x d hp hq = rw (hp, hq)
