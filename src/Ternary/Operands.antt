-- ===== src/Ternary/Operands.antt =====
-- The input that the byte adder and the byte subtracter share: the thermometers of two bytes and a
-- bit, one after the other, with the sums that their first layers take.
use transformer_vm_bank.Base.{
  ℕ, ◌+◌, ◌≤◌, ◌<◌, ◌≡◌, refl, sym, ◌∙◌, List, [], ◌++◌, arith, length, All, range, append_assoc,
  append-nil, length-append, All-append,
}
use transformer_vm_bank.Int.{ℤ, pos}
use transformer_vm_bank.Ternary.Network.Kernel.{sum_at, magnitude}
use transformer_vm_bank.Ternary.Sums.{sum_at-part, sum-encode, small-encode}
use transformer_vm_bank.Ternary.Thermo.{encode, length-encode}

abbrev pub operands : (a b c : ℕ) → List ℤ
operands a b c = encode (pos a) 255 ++ (encode (pos b) 255 ++ encode (pos c) 1)

pub length-operands : (a b c : ℕ) → length (operands a b c) ≡ 514
length-operands a b c = omega (
  arith,
  length-append (encode (pos a) 255) (encode (pos b) 255 ++ encode (pos c) 1),
  length-append (encode (pos b) 255) (encode (pos c) 1),
  length-encode (pos a) 255,
  length-encode (pos b) 255,
  length-encode (pos c) 1,
)

pub small-operands : (a b c : ℕ) → All (λ v. magnitude v ≤ 1) (operands a b c)
small-operands a b c =
    All-append (λ v. magnitude v ≤ 1) (encode (pos a) 255) (encode (pos b) 255 ++ encode (pos c) 1)
      (small-encode (pos a) 255)
      (All-append (λ v. magnitude v ≤ 1) (encode (pos b) 255) (encode (pos c) 1)
        (small-encode (pos b) 255) (small-encode (pos c) 1))

module _ (a b c : ℕ) where
  pub sum_at-first_operand : a < 256 → sum_at (operands a b c) (range 0 256) ≡ pos (a + 1)
  sum_at-first_operand h =
      sum_at-part [] (encode (pos a) 255) (encode (pos b) 255 ++ encode (pos c) 1) 0 256 refl
        (length-encode (pos a) 255)
      ∙ sum-encode a 255 (omega arith)

  pub sum_at-second_operand : b < 256 → sum_at (operands a b c) (range 256 256) ≡ pos (b + 1)
  sum_at-second_operand h =
      sum_at-part (encode (pos a) 255) (encode (pos b) 255) (encode (pos c) 1) 256 256
        (length-encode (pos a) 255) (length-encode (pos b) 255)
      ∙ sum-encode b 255 (omega arith)

  pub sum_at-third_operand : c ≤ 1 → sum_at (operands a b c) (range 512 2) ≡ pos (c + 1)
  sum_at-third_operand h =
      let whole : (encode (pos a) 255 ++ encode (pos b) 255) ++ (encode (pos c) 1 ++ [])
          ≡ operands a b c =
        simp (append_assoc, append-nil) in
      let len : length (encode (pos a) 255 ++ encode (pos b) 255) ≡ 512 = omega (
        arith,
        length-append (encode (pos a) 255) (encode (pos b) 255),
        length-encode (pos a) 255,
        length-encode (pos b) 255,
      ) in
      let part =
        sum_at-part (encode (pos a) 255 ++ encode (pos b) 255) (encode (pos c) 1) [] 512 2 len
          (length-encode (pos c) 1) in
      rw (sym whole) (part ∙ sum-encode c 1 h)
