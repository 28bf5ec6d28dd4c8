-- ===== src/Wire/Proof/Decode.antt =====
-- The byte strings that `from_wrapped_cbor` reads, and what it reads from them.
use pask_workspace.Prelude.{
  ℕ, ℤ, ◌≤◌, ◌<◌, ◌≡◌, refl, ◌↔◌, arith, List, [], ◌∷◌, Option, none, some, length, All, ok, ok_or,
  >>=-eq-ok, ap, ◌∙◌, subst,
}
use pask_workspace.Wire.Error.{Error}
use pask_workspace.Wire.Cbor.{Value, Values, CborLibrary, unsigned, whole}
use pask_workspace.Wire.Merkle.{InclusionProof, reconstruct_root}
use pask_workspace.Wire.Merkle.Bounds.{length-reconstruct_root}
use pask_workspace.Wire.Proof.{
  path_hashes, proof_path, proof_fields, proof_elements, from_wrapped_cbor,
}

path_value : List (List ℕ) → Values
path_value [] = Values.nil
path_value (hash ∷ path) = Values.cons (Value.bytes hash) (path_value path)

-- The CBOR form of a proof: `[tree_size, leaf_index, inclusion_path]`.
pub proof_value : InclusionProof → Value
proof_value proof = Value.array (
    Values.cons (Value.integer (ℤ.pos proof.tree_size)) (
      Values.cons (Value.integer (ℤ.pos proof.leaf_index))
        (Values.cons (Value.array (path_value proof.inclusion_path)) Values.nil)))

abbrev pub IsHash : List ℕ → Type 0
IsHash hash = length hash ≡ 32

-- 64-bit counts, and a path of one hash at least.
abbrev pub IsProof : InclusionProof → Type 0
IsProof proof =
    (proof.tree_size < 18446744073709551616)
    × (proof.leaf_index < 18446744073709551616)
    × (0 < length proof.inclusion_path)
    × All IsHash proof.inclusion_path

unsigned-ok :
    (v : Value) (n : ℕ)
    → unsigned v ≡ some n
    → (v ≡ Value.integer (ℤ.pos n)) × (n < 18446744073709551616)
unfolding unsigned
unsigned-ok (Value.integer (ℤ.pos m)) n e = ground arith
unsigned-ok (Value.integer (ℤ.negsuc m)) n e = cc
unsigned-ok (Value.bytes b) n e = cc
unsigned-ok (Value.float f) n e = cc
unsigned-ok (Value.text t) n e = cc
unsigned-ok (Value.bool b) n e = cc
unsigned-ok Value.null n e = cc
unsigned-ok (Value.tag t v) n e = cc
unsigned-ok (Value.array vs) n e = cc
unsigned-ok (Value.map m) n e = cc

unsigned-pos : (n : ℕ) → n < 18446744073709551616 → unsigned (Value.integer (ℤ.pos n)) ≡ some n
unfolding unsigned
unsigned-pos n h = ground arith

path_hashes-ok :
    (path : Values) (hashes : List (List ℕ))
    → path_hashes path ≡ ok hashes
    → (path ≡ path_value hashes) × All IsHash hashes
unfolding path_hashes path_value
path_hashes-ok Values.nil [] e = (refl, tt)
path_hashes-ok Values.nil (x ∷ xs) e = cc
path_hashes-ok (Values.cons (Value.bytes hash) path) [] e = ground arith
path_hashes-ok (Values.cons (Value.bytes hash) path) (x ∷ xs) e =
    ground (arith, path_hashes-ok path xs)
path_hashes-ok (Values.cons _ path) hashes e = cc

path_hashes-path_value :
    (hashes : List (List ℕ)) → All IsHash hashes → path_hashes (path_value hashes) ≡ ok hashes
unfolding path_hashes path_value
path_hashes-path_value [] h = refl
path_hashes-path_value (x ∷ xs) h = ground (arith, path_hashes-path_value xs)

proof_path-ok :
    (v : Value) (hashes : List (List ℕ))
    → proof_path v ≡ ok hashes
    → (v ≡ Value.array (path_value hashes)) × (0 < length hashes) × All IsHash hashes
unfolding proof_path path_value
proof_path-ok (Value.array (Values.cons first path)) [] e =
    let (p, h) = path_hashes-ok (Values.cons first path) [] e in cc
proof_path-ok (Value.array (Values.cons first path)) (x ∷ xs) e =
    let (p, h) = path_hashes-ok (Values.cons first path) (x ∷ xs) e in
    (ap Value.array p, omega arith, h)
proof_path-ok (Value.array Values.nil) hashes e = cc
proof_path-ok _ hashes e = cc

proof_path-path_value :
    (hashes : List (List ℕ))
    → 0 < length hashes
    → All IsHash hashes
    → proof_path (Value.array (path_value hashes)) ≡ ok hashes
unfolding proof_path path_value
proof_path-path_value [] p h = absurd (omega arith)
proof_path-path_value (x ∷ xs) p h = path_hashes-path_value (x ∷ xs) h

ok_or-ok : {A : Type 0} (o : Option A) (e : Error) {a : A} → ok_or o e ≡ ok a → o ≡ some a
ok_or-ok none e h = cc
ok_or-ok (some x) e h = cc

proof_fields-ok :
    (size index path : Value) (proof : InclusionProof)
    → proof_fields size index path ≡ ok proof
    → (Value.array (Values.cons size (Values.cons index (Values.cons path Values.nil)))
        ≡ proof_value proof)
      × IsProof proof
unfolding proof_fields proof_value
proof_fields-ok size index path proof e =
    let (s, hs, e1) =
      >>=-eq-ok (ok_or (unsigned size) (Error.receipt "inclusion proof tree_size must be a uint")) _
        e in
    let (i, hi, e2) =
      >>=-eq-ok (ok_or (unsigned index) (Error.receipt "inclusion proof leaf_index must be a uint"))
        _ e1 in
    let (p, hp, e3) = >>=-eq-ok (proof_path path) _ e2 in
    let (vs, ls) = unsigned-ok size s (ok_or-ok _ _ hs) in
    let (vi, li) = unsigned-ok index i (ok_or-ok _ _ hi) in
    let (vp, lp, ap) = proof_path-ok path p hp in
    let read : InclusionProof = record { tree_size = s; leaf_index = i; inclusion_path = p } in
    let same : read ≡ proof = cc in
    subst
      (λ q.
        (Value.array (Values.cons size (Values.cons index (Values.cons path Values.nil)))
          ≡ proof_value q)
        × IsProof q)
      same (rw (vs, vi, vp) refl, (ls, li, lp, ap))

proof_elements-ok :
    (v : Value) (proof : InclusionProof)
    → proof_elements v ≡ ok proof
    → (v ≡ proof_value proof) × IsProof proof
unfolding proof_elements
proof_elements-ok (Value.array (Values.cons size (Values.cons index (Values.cons path Values.nil))))
      proof e =
    proof_fields-ok size index path proof e
proof_elements-ok _ proof e = cc

proof_elements-proof_value :
    (proof : InclusionProof) → IsProof proof → proof_elements (proof_value proof) ≡ ok proof
unfolding proof_elements proof_fields proof_value
proof_elements-proof_value proof (s, i, p, h) =
    rw
      (
        unsigned-pos proof.tree_size s,
        unsigned-pos proof.leaf_index i,
        proof_path-path_value proof.inclusion_path p h,
      )
      refl

whole-ok :
    (r : Option (Value × List ℕ)) (e f : Error) (v : Value) → whole r e f ≡ ok v → r ≡ some (v, [])
whole-ok none e f v h = cc
whole-ok (some (w, [])) e f v h = cc
whole-ok (some (w, b ∷ rest)) e f v h = cc

module _ (cbor : CborLibrary) where
  -- A byte string is read as a proof exactly if it is the CBOR form of that proof with nothing
  -- behind it, the counts fit 64 bits, and the path has one hash at least, each of 32 bytes.
  pub from_wrapped_cbor_iff :
      (wrapped : List ℕ) (proof : InclusionProof)
      → (from_wrapped_cbor cbor wrapped ≡ ok proof)
        ↔ ((cbor.from_reader wrapped ≡ some (proof_value proof, [])) × IsProof proof)
  unfolding from_wrapped_cbor
  from_wrapped_cbor_iff wrapped proof = (
    λ e.
        let (v, hv, e1) = >>=-eq-ok (whole (cbor.from_reader wrapped) _ _) _ e in
        let (same, p) = proof_elements-ok v proof e1 in
        (whole-ok _ _ _ v hv ∙ ap (λ x. some (x, [])) same, p),
    λ (e, p). rw e (proof_elements-proof_value proof p),
  )

  -- A proof that was read and reconstructs a root is for a tree of two entries at least: no
  -- receipt for a log of one entry can be both read and verified.
  pub from_wrapped_cbor-tree_size :
      (sha256 : List ℕ → List ℕ) (wrapped : List ℕ) (proof : InclusionProof) (leaf root : List ℕ)
      → from_wrapped_cbor cbor wrapped ≡ ok proof
      → reconstruct_root sha256 proof leaf ≡ ok root
      → 2 ≤ proof.tree_size
  from_wrapped_cbor-tree_size sha256 wrapped proof leaf root e r =
      let (_, (_, _, p, _)) = (from_wrapped_cbor_iff wrapped proof).0 e in
      ground (arith, length-reconstruct_root sha256 0 proof leaf root)
