-- ===== src/Crypto/Toy.antt =====
-- An instance of the parameters at which the examples run: a signature is the key followed by the
-- message, and a digest is the first 32 bytes, padded with zeros.
use transformer_vm_bank.Base.{
  ℕ, refl, true, ◌++◌, arith, take, replicate, length-take, length-append, length-replicate,
}
use transformer_vm_bank.Bytes.{Bytes, bytes_eq, bytes_eq_refl}
use transformer_vm_bank.Crypto.{Crypto, Laws}

abbrev pub pad32 : Bytes → Bytes
pad32 m = take 32 (m ++ replicate 32 0)

abbrev pub pad64 : Bytes → Bytes
pad64 m = take 64 (m ++ replicate 64 0)

abbrev pub toy : Crypto
toy = record {
  verifying_key = λ sk. sk;
  sign_message = λ sk m. sk ++ m;
  valid_key = λ pk. true;
  check_signature = λ pk m s. bytes_eq s (pk ++ m);
  blake3 = pad32;
  blake3_512 = pad64;
}

pub toy-Laws : Laws toy
toy-Laws = record {
  check-sign = λ sk m. bytes_eq_refl (sk ++ m);
  valid-verifying_key = λ sk. refl;
  length-blake3 = λ m. omega (
    arith,
    length-take 32 (m ++ replicate 32 0),
    length-append m (replicate {A = ℕ} 32 0),
    length-replicate {A = ℕ} 32 0,
  );
  length-blake3_512 = λ m. omega (
    arith,
    length-take 64 (m ++ replicate 64 0),
    length-append m (replicate {A = ℕ} 64 0),
    length-replicate {A = ℕ} 64 0,
  );
}
