-- ===== src/Ternary/FreezeApply/Input.antt =====
-- The input of the network of ternary_vm/src/primitives/freeze_apply.rs and its entries.
use transformer_vm_bank.Base.{
  ℕ, ◌+◌, ◌-◌, ◌≤◌, ◌<◌, ◌≡◌, ap, ◌∙◌, List, ◌++◌, map, some, arith, ltb, leb, if◌then◌else◌,
  length, get, get_or, All, length-append, length-map, length-range, range, All-append,
  get-map-range, get-append-left, get-append-right, get_or-append-left, get_or-append-right,
  get_or-lt,
}
use transformer_vm_bank.Int.{ℤ, pos}
use transformer_vm_bank.Ternary.Network.Kernel.{magnitude}
use transformer_vm_bank.Ternary.Sums.{small-encode}
use transformer_vm_bank.Ternary.Thermo.{encode, length-encode, get-encode}

abbrev pub input_of : (flag byte47 : ℕ) → List ℤ
input_of flag byte47 = encode (pos flag) 1 ++ encode (pos byte47) 255

-- Entry `k` of the byte's thermometer.
abbrev pub step_at : ℕ → ℕ → ℕ
step_at byte47 k = if leb k byte47 then 1 else 0

-- What the first layer puts out.
abbrev pub low_at : (flag byte47 k : ℕ) → ℕ
low_at flag byte47 k =
    if ltb k 128
    then step_at byte47 k - (step_at byte47 (k + 128) + step_at byte47 128)
    else if ltb k 256
    then step_at byte47 k
    else flag

pub length-input_of : (flag byte47 : ℕ) → length (input_of flag byte47) ≡ 258
length-input_of flag byte47 = omega (
  arith,
  length-append (encode (pos flag) 1) (encode (pos byte47) 255),
  length-encode (pos flag) 1,
  length-encode (pos byte47) 255,
)

pub small-input_of : (flag byte47 : ℕ) → All (λ v. magnitude v ≤ 1) (input_of flag byte47)
small-input_of flag byte47 =
    All-append (λ v. magnitude v ≤ 1) (encode (pos flag) 1) (encode (pos byte47) 255)
      (small-encode (pos flag) 1) (small-encode (pos byte47) 255)

pub byte-entry :
    (flag byte47 i k : ℕ)
    → byte47 < 256
    → k < 256
    → i ≡ 2 + k
    → get_or (input_of flag byte47) i (pos 0) ≡ pos (step_at byte47 k)
byte-entry flag byte47 i k hb hk e =
    get_or-append-right (encode (pos flag) 1) (encode (pos byte47) 255) i k (pos 0)
      (omega (arith, length-encode (pos flag) 1))
    ∙ get_or-lt (encode (pos byte47) 255) k (pos 0)
        (get-encode byte47 255 k (omega arith) (omega arith))

pub flag-entry : (flag byte47 : ℕ) → flag ≤ 1 → get_or (input_of flag byte47) 1 (pos 0) ≡ pos flag
flag-entry flag byte47 h =
    get_or-append-left (encode (pos flag) 1) (encode (pos byte47) 255) 1 (pos 0)
      (omega (arith, length-encode (pos flag) 1))
    ∙ get_or-lt (encode (pos flag) 1) 1 (pos 0) (get-encode flag 1 1 h (omega arith))
    ∙ ground arith

-- An entry of the second of three parts.
pub get-second {ℓ} :
    {A : Type ℓ} (xs : List A) (f : ℕ → A) (last : List A) (k : ℕ)
    → length xs ≡ 128
    → 128 ≤ k
    → k < 256
    → get (xs ++ (map f (range 128 128) ++ last)) k ≡ some (f k)
get-second xs f last k len lo hi =
    get-append-right xs (map f (range 128 128) ++ last) k (k - 128) (omega arith)
    ∙ get-append-left (map f (range 128 128)) last (k - 128)
        (omega (arith, length-map (range 128 128) f, length-range 128 128))
    ∙ get-map-range f 128 128 (k - 128) (omega arith)
    ∙ ap (λ j. some (f j)) (omega arith)
