-- ===== src/Ternary/Weights/RoundTrip.antt =====
-- `unpack_weights` inverts `pack_weights` of ternary_vm/src/weights.rs.
use transformer_vm_bank.Base.{
  ℕ, ◌-◌, ◌^◌, ◌%◌, ◌<◌, ◌≡◌, refl, true, false, List, ◌++◌, arith, ltb, length, take, drop, All,
  ok, ◌>>=◌, length-append,
}
use transformer_vm_bank.Bytes.{Bytes, to_be_bytes, bytes_eq_refl}
use transformer_vm_bank.Crypto.{Crypto, Laws}
use transformer_vm_bank.Ternary.Network.{SparseTernaryLayer, WeightsHeader}
use transformer_vm_bank.Ternary.Weights.{
  magic, pack_payload, pack_weights, build_header, pack_weights_dual, weights_hash_v2,
}
use transformer_vm_bank.Ternary.Weights.Reads.{
  take-length, drop-length, take_bytes-append, read_uint-append,
}
use transformer_vm_bank.Ternary.Weights.Unpack.{unpack_payload, unpack_weights, is_utf8}
use transformer_vm_bank.Ternary.Weights.Layers.{
  IsPackable, packed_layers, pack_layers-packed, unpack_layers-packed,
}

module _ (c : Crypto) (laws : Laws c) (primitive : Bytes) (input_dim output_dim : ℕ)
    (layers : List SparseTernaryLayer) (text : is_utf8 primitive ≡ true)
    (name_fits : length primitive < 2 ^ 16) (input_fits : input_dim < 2 ^ 32)
    (output_fits : output_dim < 2 ^ 32) (count_fits : length layers < 2 ^ 32)
    (packable : All IsPackable layers) where
  payload_of : Bytes
  payload_of =
      magic
      ++ (to_be_bytes 4 1
          ++ (to_be_bytes 2 (length primitive)
              ++ (primitive
                  ++ (to_be_bytes 4 input_dim
                      ++ (to_be_bytes 4 output_dim
                          ++ (to_be_bytes 4 (length layers) ++ packed_layers layers))))))

  header_of : WeightsHeader
  header_of = record {
    version = 1;
    primitive = primitive;
    input_dim = input_dim;
    output_dim = output_dim;
    weights_hash = c.blake3 payload_of;
    weights_hash_v2 = c.blake3_512 payload_of;
  }

  pack_payload-payload_of : pack_payload primitive input_dim output_dim layers ≡ ok payload_of
  unfolding pack_payload payload_of
  pack_payload-payload_of =
      let name : length primitive % 2 ^ 16 ≡ length primitive = omega arith in
      let count : length layers % 2 ^ 32 ≡ length layers = omega arith in
      rw (pack_layers-packed layers packable, name, count) refl

  unpack_payload-payload_of :
      unpack_payload c payload_of (c.blake3 payload_of) ≡ ok (header_of, layers)
  unfolding unpack_payload header_of payload_of
  unpack_payload-payload_of =
      rw
        (
          take_bytes-append 8 magic _ refl,
          bytes_eq_refl magic,
          read_uint-append 4 1 (omega arith),
          read_uint-append 2 (length primitive) (omega arith),
          take_bytes-append (length primitive) primitive _ refl,
          text,
          read_uint-append 4 input_dim (omega arith),
          read_uint-append 4 output_dim (omega arith),
          read_uint-append 4 (length layers) (omega arith),
          unpack_layers-packed layers packable,
        )
        refl

  -- The stream is the payload and its digest of 32 bytes.
  packed_stream : Bytes
  packed_stream = payload_of ++ c.blake3 payload_of

  payload-length : length packed_stream - 32 ≡ length payload_of
  unfolding packed_stream
  payload-length =
      omega (arith, length-append payload_of (c.blake3 payload_of), laws.length-blake3 payload_of)

  take-payload : take (length packed_stream - 32) packed_stream ≡ payload_of
  unfolding packed_stream
  take-payload = rw payload-length (take-length payload_of (c.blake3 payload_of))

  drop-payload : drop (length packed_stream - 32) packed_stream ≡ c.blake3 payload_of
  unfolding packed_stream
  drop-payload = rw payload-length (drop-length payload_of (c.blake3 payload_of))

  stream-long : (ltb (length packed_stream) 40) ≡ false
  unfolding packed_stream payload_of
  stream-long =
      let rest = drop 8 payload_of in
      ground (
        arith,
        length-append payload_of (c.blake3 payload_of),
        laws.length-blake3 payload_of,
        length-append magic (drop 8 payload_of),
      )

  pack_weights-stream :
      pack_weights c primitive input_dim output_dim layers ≡ ok (packed_stream, c.blake3 payload_of)
  unfolding pack_weights packed_stream
  pack_weights-stream = rw pack_payload-payload_of refl

  weights_hash_v2-stream : weights_hash_v2 c packed_stream ≡ c.blake3_512 payload_of
  unfolding weights_hash_v2
  weights_hash_v2-stream =
      let long : ltb (length packed_stream) 32 ≡ false = ground (arith, stream-long) in
      rw (long, take-payload) refl

  build_header-header_of : build_header c primitive input_dim output_dim layers ≡ ok header_of
  unfolding build_header pack_weights_dual header_of
  build_header-header_of = rw (pack_weights-stream, weights_hash_v2-stream) refl

  unpack_weights-stream : unpack_weights c packed_stream ≡ ok (header_of, layers)
  unfolding unpack_weights
  unpack_weights-stream =
      rw
        (
          stream-long,
          take-payload,
          drop-payload,
          bytes_eq_refl (c.blake3 payload_of),
          unpack_payload-payload_of,
        )
        refl

  -- What `pack_weights` writes for a name in UTF-8, dimensions and counts that fit their fields and
  -- layers of the documented shape, `unpack_weights` reads back: the same layers, under the header
  -- that `build` gives the network, with both digests.
  pub unpack-pack :
      (header : WeightsHeader) × (build_header c primitive input_dim output_dim layers ≡ ok header)
      × ((pack_weights c primitive input_dim output_dim layers >>= λ packed.
            unpack_weights c packed.0)
          ≡ ok (header, layers))
  unpack-pack = (header_of, build_header-header_of, rw pack_weights-stream unpack_weights-stream)
