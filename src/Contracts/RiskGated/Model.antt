-- ===== src/Contracts/RiskGated/Model.antt =====
-- The decision network of inference.rs computes its documented predicate.
use transformer_vm_bank.Base.{
  ℕ, zero, suc, ◌+◌, ◌-◌, ◌<◌, ◌≡◌, refl, ap, ◌∙◌, Bool, ◌&&◌, List, [], ◌∷◌, arith, leb,
  if◌then◌else◌, ok,
}
use transformer_vm_bank.Contracts.RiskGated.{layer1, layer2, layer3, layer4, model_layers}
use transformer_vm_bank.Int.{ℤ, pos, negsuc, ◌+ℤ◌, ◌-ℤ◌, sub_ℕ}
use transformer_vm_bank.Ternary.Network.{
  TernaryNetwork, forward, forward_layers, forward_row, activate,
}
use transformer_vm_bank.Ternary.Network.Kernel.{sum_at}
use transformer_vm_bank.Ternary.Network.Bounds.{
  forward_row-of, forward_layer-of, forward_layers-step, forward-fits,
}

-- The predicate that the module's documentation states.
unfoldable pub approves : (income debt collateral risk_flags : ℕ) → Bool
approves income debt collateral risk_flags =
    leb (debt + 500) (income + collateral) && leb risk_flags 10

abbrev bit : Bool → ℕ
bit b = if b then 1 else 0

module _ (f0 f1 f2 f3 : ℕ) (h0 : f0 < 65536) (h1 : f1 < 65536) (h2 : f2 < 65536)
    (h3 : f3 < 65536) where
  features : List ℤ
  features = pos f0 ∷ pos f1 ∷ pos f2 ∷ pos f3 ∷ []

  credit : ℤ
  credit = sub_ℕ (f0 + f2) f1

  headroom : ℤ
  headroom = sub_ℕ 10 f3

  scores : ℕ → ℤ
  scores zero = credit
  scores (suc k) = headroom

  layer1-row : (k : ℕ) → k < 2 → forward_row layer1 features 0 k ≡ ok (scores k)
  unfolding layer1 features scores credit headroom sum_at activate ◌+ℤ◌ ◌-ℤ◌
  layer1-row zero lt =
      forward_row-of layer1 features 65536 0 0 (pos 0) (0 ∷ 2 ∷ []) (1 ∷ []) refl refl refl
        (omega arith, (omega arith, (omega arith, (omega arith, tt))))
        (omega arith, (omega arith, tt)) (omega arith, tt) (omega arith)
      ∙ ap ok (ground arith)
  layer1-row (suc zero) lt =
      forward_row-of layer1 features 65536 0 1 (pos 10) [] (3 ∷ []) refl refl refl
        (omega arith, (omega arith, (omega arith, (omega arith, tt)))) tt (omega arith, tt)
        (omega arith)
      ∙ ap ok (ground arith)
  layer1-row (suc (suc k)) lt = absurd (omega arith)

  -- The four step extractors.
  steps : ℕ → ℤ
  steps zero = pos (f0 + f2 + 1 - (f1 + 500))
  steps (suc zero) = pos (f0 + f2 - (f1 + 500))
  steps (suc (suc zero)) = pos (11 - f3)
  steps (suc (suc (suc k))) = pos (10 - f3)

  layer2-row : (k : ℕ) → k < 4 → forward_row layer2 (credit ∷ headroom ∷ []) 1 k ≡ ok (steps k)
  unfolding layer2 steps credit headroom sum_at activate ◌+ℤ◌ ◌-ℤ◌
  layer2-row zero lt =
      forward_row-of layer2 (credit ∷ headroom ∷ []) 131072 1 0 (negsuc 498) (0 ∷ []) [] refl refl
        refl (ground arith, (ground arith, tt)) (omega arith, tt) tt (omega arith)
      ∙ ap ok (ground arith)
  layer2-row (suc zero) lt =
      forward_row-of layer2 (credit ∷ headroom ∷ []) 131072 1 1 (negsuc 499) (0 ∷ []) [] refl refl
        refl (ground arith, (ground arith, tt)) (omega arith, tt) tt (omega arith)
      ∙ ap ok (ground arith)
  layer2-row (suc (suc zero)) lt =
      forward_row-of layer2 (credit ∷ headroom ∷ []) 131072 1 2 (pos 1) (1 ∷ []) [] refl refl refl
        (ground arith, (ground arith, tt)) (omega arith, tt) tt (omega arith)
      ∙ ap ok (ground arith)
  layer2-row (suc (suc (suc zero))) lt =
      forward_row-of layer2 (credit ∷ headroom ∷ []) 131072 1 3 (pos 0) (1 ∷ []) [] refl refl refl
        (ground arith, (ground arith, tt)) (omega arith, tt) tt (omega arith)
      ∙ ap ok (ground arith)
  layer2-row (suc (suc (suc (suc k)))) lt = absurd (omega arith)

  step_vector : List ℤ
  step_vector =
      pos (f0 + f2 + 1 - (f1 + 500))
      ∷ pos (f0 + f2 - (f1 + 500))
      ∷ pos (11 - f3)
      ∷ pos (10 - f3)
      ∷ []

  creditworthy : ℕ
  creditworthy = bit (leb (f1 + 500) (f0 + f2))

  within_risk : ℕ
  within_risk = bit (leb f3 10)

  bits : ℕ → ℤ
  bits zero = pos creditworthy
  bits (suc k) = pos within_risk

  layer3-row : (k : ℕ) → k < 2 → forward_row layer3 step_vector 2 k ≡ ok (bits k)
  unfolding layer3 step_vector bits creditworthy within_risk sum_at activate ◌+ℤ◌ ◌-ℤ◌
  layer3-row zero lt =
      forward_row-of layer3 step_vector 131072 2 0 (pos 0) (0 ∷ []) (1 ∷ []) refl refl refl
        (omega arith, (omega arith, (omega arith, (omega arith, tt)))) (omega arith, tt)
        (omega arith, tt) (omega arith)
      ∙ ap ok (ground arith)
  layer3-row (suc zero) lt =
      forward_row-of layer3 step_vector 131072 2 1 (pos 0) (2 ∷ []) (3 ∷ []) refl refl refl
        (omega arith, (omega arith, (omega arith, (omega arith, tt)))) (omega arith, tt)
        (omega arith, tt) (omega arith)
      ∙ ap ok (ground arith)
  layer3-row (suc (suc k)) lt = absurd (omega arith)

  decision : ℤ
  decision = pos (bit (approves f0 f1 f2 f3))

  layer4-row :
      (k : ℕ)
      → k < 1
      → forward_row layer4 (pos creditworthy ∷ pos within_risk ∷ []) 3 k ≡ ok decision
  unfolding layer4 decision approves creditworthy within_risk sum_at activate ◌+ℤ◌ ◌-ℤ◌
  layer4-row zero lt =
      forward_row-of layer4 (pos creditworthy ∷ pos within_risk ∷ []) 1 3 0 (negsuc 0) (0 ∷ 1 ∷ [])
        [] refl refl refl (ground arith, (ground arith, tt)) (omega arith, (omega arith, tt)) tt
        (omega arith)
      ∙ ap ok (ground arith)
  layer4-row (suc k) lt = absurd (omega arith)

  forward-features : forward_layers model_layers 0 features ≡ ok (decision ∷ [])
  unfolding model_layers layer1 layer2 layer3 layer4 forward_layers features step_vector scores
      steps bits
  forward-features =
      forward_layers-step layer1 (layer2 ∷ layer3 ∷ layer4 ∷ []) 0 features
        (λ y h. forward_layer-of layer1 features scores 0 y refl h layer1-row)
      ∙ forward_layers-step layer2 (layer3 ∷ layer4 ∷ []) 1 (credit ∷ headroom ∷ [])
          (λ y h. forward_layer-of layer2 (credit ∷ headroom ∷ []) steps 1 y refl h layer2-row)
      ∙ forward_layers-step layer3 (layer4 ∷ []) 2 step_vector
          (λ y h. forward_layer-of layer3 step_vector bits 2 y refl h layer3-row)
      ∙ forward_layers-step layer4 [] 3 (pos creditworthy ∷ pos within_risk ∷ []) (λ y h.
        forward_layer-of layer4 (pos creditworthy ∷ pos within_risk ∷ []) (λ k. decision) 3 y refl h
          layer4-row)

  -- The network returns one number: 1 when the predicate holds and 0 when it does not.
  pub forward-decides :
      (net : TernaryNetwork)
      → net.layers ≡ model_layers
      → forward net (pos f0 ∷ pos f1 ∷ pos f2 ∷ pos f3 ∷ [])
        ≡ ok (pos (if approves f0 f1 f2 f3 then 1 else 0) ∷ [])
  unfolding model_layers layer1 features decision
  forward-decides net built = forward-fits net layer1 _ features built refl ∙ forward-features
