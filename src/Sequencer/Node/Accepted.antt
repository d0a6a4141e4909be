-- ===== src/Sequencer/Node/Accepted.antt =====
-- The light client accepts the headers of a node.
use transformer_vm_bank.Base.{
  ℕ, ◌+◌, ◌≡◌, ◌≢◌, refl, ap, sym, ◌∙◌, Option, none, some, List, [], ◌∷◌, ◌++◌, ok, arith,
  >>=-eq-ok, Result-cases, inl, inr,
}
use transformer_vm_bank.Bytes.{Bytes, bytes_eq_iff}
use transformer_vm_bank.Crypto.{Crypto, Laws}
use transformer_vm_bank.LightClient.Header.{SignedHeader, verify_header, full_hash}
use transformer_vm_bank.LightClient.Verify.{check_headers, check_link, signature_result}
use transformer_vm_bank.Sequencer.Registry.{Json}
use transformer_vm_bank.Sequencer.Mempool.{ingress}
use transformer_vm_bank.Sequencer.Node.{
  SequencerNode, TraceExecutor, NodeEvent, submit, register, tick, node_step, run_node,
  produce_block, register_issuer, lookup_issuer,
}
use transformer_vm_bank.Sequencer.Node.Chain.{Follows, produce_block-Ticked}

-- The last of a list of headers that comes after `before`.
abbrev pub last_of : Option SignedHeader → List SignedHeader → Option SignedHeader
last_of before [] = before
last_of before (s ∷ headers) = last_of (some s) headers

last_of-snoc :
    (before : Option SignedHeader) (headers : List SignedHeader) (s : SignedHeader)
    → last_of before (headers ++ s ∷ []) ≡ some s
last_of-snoc before [] s = refl
last_of-snoc before (t ∷ headers) s = last_of-snoc (some t) headers s

last_of-some :
    (s : SignedHeader) (headers : List SignedHeader)
    → (h : SignedHeader) × (last_of (some s) headers ≡ some h)
last_of-some s [] = (s, refl)
last_of-some s (t ∷ headers) = last_of-some t headers

snoc-nonempty : (headers : List SignedHeader) (s : SignedHeader) → headers ++ s ∷ [] ≢ []
snoc-nonempty [] s e = cc
snoc-nonempty (t ∷ headers) s e = cc

module _ (c : Crypto) (genesis_root signer : Bytes) where
  abbrev hash_of : Option SignedHeader → Option Bytes
  hash_of none = none
  hash_of (some s) = some (full_hash c s)

  -- What `check_link` asks of a header after another one or none.
  abbrev IsNext : Option SignedHeader → SignedHeader → Type 0
  IsNext none s = s.header.prev_state_root ≡ genesis_root
  IsNext (some h) s = s.header.parent_hash ≡ full_hash c h

  check_link-IsNext :
      (i : ℕ) (before : Option SignedHeader) (s : SignedHeader)
      → IsNext before s
      → check_link genesis_root i (hash_of before) s ≡ ok tt
  unfolding check_link
  check_link-IsNext i none s h = ground (arith, bytes_eq_iff s.header.prev_state_root genesis_root)
  check_link-IsNext i (some t) s h =
      ground (arith, bytes_eq_iff s.header.parent_hash (full_hash c t))

  check_headers-snoc :
      (i : ℕ) (before : Option SignedHeader) (headers : List SignedHeader) (s : SignedHeader)
      → check_headers c genesis_root signer i (hash_of before) headers ≡ ok tt
      → IsNext (last_of before headers) s
      → verify_header c signer s ≡ ok tt
      → check_headers c genesis_root signer i (hash_of before) (headers ++ s ∷ []) ≡ ok tt
  unfolding check_headers
  check_headers-snoc i before [] s e next signed = ground (arith, check_link-IsNext i before s next)
  check_headers-snoc i before (t ∷ headers) s e next signed =
      let (_, linked, e1) = >>=-eq-ok (check_link genesis_root i (hash_of before) t) _ e in
      let (_, own, rest) =
        >>=-eq-ok (signature_result t.header.block_n (verify_header c signer t)) _ e1 in
      ground (arith, check_headers-snoc (i + 1) (some t) headers s rest next signed)

  -- A node whose last header ends a chain that the light client accepts, or that still stands at the
  -- genesis root.
  pub record IsAccepted (node : SequencerNode) (headers : List SignedHeader) : Type 0 where
    pub keyed : c.verifying_key node.keypair ≡ signer
    pub checks : check_headers c genesis_root signer 0 none headers ≡ ok tt
    pub ends : last_of none headers ≡ node.last_header
    pub starts : (headers ≡ []) → node.state.accounts.root ≡ genesis_root

  Follows-IsNext :
      (executor : TraceExecutor) (now later : ℕ) (node node' : SequencerNode)
      (headers : List SignedHeader) (s : SignedHeader) (hashes : List Bytes)
      → IsAccepted node headers
      → Follows c executor now later node node' s hashes
      → IsNext (last_of none headers) s
  Follows-IsNext executor now later node node' [] s hashes a f = f.before ∙ a.starts refl
  Follows-IsNext executor now later node node' (t ∷ headers) s hashes a f =
      let (h, e) = last_of-some t headers in
      let stands : node.last_header ≡ some h = sym a.ends ∙ e in rw e (rw stands at f.parent)

  tick-IsAccepted :
      Laws c
      → (executor : TraceExecutor) (now later : ℕ) (node : SequencerNode)
        (headers : List SignedHeader)
      → IsAccepted node headers
      → (produce_block c executor now later node).1 ≡ ok tt
      → (headers' : List SignedHeader) × IsAccepted
          (produce_block c executor now later node).0
          headers'
  tick-IsAccepted l executor now later node headers a success =
      let (same_key, outcome) = produce_block-Ticked l executor now later node in
      elim outcome [
        | inl (_, idle, _) ↦ (
          headers,
          record {
            keyed = ap c.verifying_key same_key ∙ a.keyed;
            checks = a.checks;
            ends = a.ends ∙ sym (ap (λ (n : SequencerNode). n.last_header) idle);
            starts = λ e. ap (λ (n : SequencerNode). n.state.accounts.root) idle ∙ a.starts e;
          },
        )
        | inr (inl (e, _, _, failed)) ↦ absurd (ground arith)
        | inr (inr (s, hashes, f, _)) ↦ (
          headers ++ s ∷ [],
          record {
            keyed = ap c.verifying_key same_key ∙ a.keyed;
            checks =
                check_headers-snoc 0 none headers s a.checks
                  (Follows-IsNext executor now later node _ headers s hashes a f)
                  (rw (← a.keyed) f.signed);
            ends = last_of-snoc none headers s ∙ sym f.last;
            starts = λ e. absurd (snoc-nonempty headers s e);
          },
        )
      ]

  node_step-IsAccepted :
      Laws c
      → (j : Json) (executor : TraceExecutor) (ev : NodeEvent) (node node' : SequencerNode)
        (headers : List SignedHeader)
      → IsAccepted node headers
      → node_step c j executor ev node ≡ ok node'
      → (headers' : List SignedHeader) × IsAccepted node' headers'
  unfolding node_step
  node_step-IsAccepted l j executor (submit tx) node node' headers a e =
      let q : record node {
        mempool = (ingress c tx node.state (λ id. lookup_issuer c j id node) node.mempool).0;
      }
          ≡ node' =
        ground arith in
      rw (← q)
        (headers, record { keyed = a.keyed; checks = a.checks; ends = a.ends; starts = a.starts })
  node_step-IsAccepted l j executor (register issuer) node node' headers a e =
      let q : register_issuer c j issuer node ≡ node' = ground arith in
      rw (← q) (
        headers,
        unfold register_issuer in
            record { keyed = a.keyed; checks = a.checks; ends = a.ends; starts = a.starts },
      )
  node_step-IsAccepted l j executor (tick now later) node node' headers a e =
      elim (Result-cases (produce_block c executor now later node).1) [
        | inr (x, failed) ↦ absurd (ground arith)
        | inl (tt, success) ↦
            let q : (produce_block c executor now later node).0 ≡ node' = ground arith in
            rw (← q) (tick-IsAccepted l executor now later node headers a success)
      ]

  run_node-IsAccepted :
      Laws c
      → (j : Json) (executor : TraceExecutor) (evs : List NodeEvent) (node node' : SequencerNode)
        (headers : List SignedHeader)
      → IsAccepted node headers
      → run_node c j executor evs node ≡ ok node'
      → (headers' : List SignedHeader) × IsAccepted node' headers'
  unfolding run_node
  run_node-IsAccepted l j executor [] node node' headers a e =
      let q : node ≡ node' = ground arith in (headers, rw (← q) a)
  run_node-IsAccepted l j executor (ev ∷ evs) node node' headers a e =
      let (mid, stepped, rest) = >>=-eq-ok (node_step c j executor ev node) _ e in
      let (headers', a') = node_step-IsAccepted l j executor ev node mid headers a stepped in
      run_node-IsAccepted l j executor evs mid node' headers' a' rest

-- Whatever transactions, registrations and ticks a node without blocks gets, and whatever executor it
-- runs: as long as no block production fails, its last header ends a chain of headers that the checks
-- of the light client pass, from the root at which the node started and with the node's key.
pub run_node-check_headers :
    {c : Crypto}
    → Laws c
    → (j : Json) (executor : TraceExecutor) (evs : List NodeEvent) (node node' : SequencerNode)
    → node.last_header ≡ none
    → run_node c j executor evs node ≡ ok node'
    → (headers : List SignedHeader) × (check_headers c node.state.accounts.root
          (c.verifying_key node.keypair)
          0
          none
          headers
        ≡ ok tt)
      × (last_of none headers ≡ node'.last_header)
run_node-check_headers {c} l j executor evs node node' fresh e =
    let (headers, a) =
      run_node-IsAccepted c node.state.accounts.root (c.verifying_key node.keypair) l j executor evs
        node node' []
        (record {
          keyed = refl;
          checks = unfold check_headers in refl;
          ends = sym fresh;
          starts = λ e. refl;
        })
        e in
    (headers, a.checks, a.ends)
