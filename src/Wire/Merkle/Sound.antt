-- ===== src/Wire/Merkle/Sound.antt =====
-- What a successful `reconstruct_root` establishes about its inputs.
use pask_workspace.Prelude.{
  ℕ, zero, suc, ◌-◌, ◌^◌, ◌≤◌, ◌<◌, ◌≡◌, refl, sym, ap, ◌∙◌, ◌≢◌, ◌⊎◌, inl, inr, arith, some, List,
  [], ◌∷◌, ◌++◌, length, take, drop, get_elem?, ok, All, append-injective, bytes-discrete,
  Bool-cases, ltb, leb,
}
use pask_workspace.Wire.Merkle.{
  Bytes, InclusionProof, leaf_hash, node_hash, sibling_is_left, climb, combine, walk,
  reconstruct_root,
}
use pask_workspace.Wire.Merkle.Tree.{tree_hash, audit_path}
use pask_workspace.Wire.Merkle.Complete.{reconstruct_root-audit_path}

-- A `[u8; 32]`.
abbrev pub Is32 : Bytes → Type 0
Is32 b = length b ≡ 32

-- Two inputs on which the hash function agrees.
abbrev pub Collision : (Bytes → Bytes) → Type 0
Collision sha256 = (x : Bytes) × (y : Bytes) × (x ≢ y) × (sha256 x ≡ sha256 y)

All-snoc : (xs : List Bytes) (x : Bytes) → All Is32 xs → Is32 x → All Is32 (xs ++ (x ∷ []))
All-snoc [] x h p = (p, tt)
All-snoc (y ∷ ys) x h p = (h.0, All-snoc ys x h.1 p)

get_elem?-below {ℓ} :
    {A : Type ℓ} (xs : List A) (m : ℕ) → m < length xs → (x : A) × (get_elem? xs m ≡ some x)
get_elem?-below [] m h = absurd (omega arith)
get_elem?-below (x ∷ xs) zero h = (x, refl)
get_elem?-below (x ∷ xs) (suc m) h = get_elem?-below xs m (omega arith)

module _ (sha256 : Bytes → Bytes) where
  reconstruct_root-ok :
      (proof : InclusionProof) (leaf root : Bytes)
      → reconstruct_root sha256 proof leaf ≡ ok root
      → (proof.leaf_index < proof.tree_size)
        × (walk sha256 proof.inclusion_path proof.leaf_index (proof.tree_size - 1) leaf ≡ ok root)
  unfolding reconstruct_root
  reconstruct_root-ok proof leaf root e = ground arith

  hash-injective : (x y : Bytes) → sha256 x ≡ sha256 y → (x ≡ y) ⊎ Collision sha256
  hash-injective x y e = elim (bytes-discrete x y) [ yes p ↦ inl p | no n ↦ inr (x, y, n, e) ]

  leaf_hash-injective :
      (x y : Bytes) → leaf_hash sha256 x ≡ leaf_hash sha256 y → (x ≡ y) ⊎ Collision sha256
  unfolding leaf_hash
  leaf_hash-injective x y e = elim (hash-injective (0 ∷ x) (0 ∷ y) e) [
    | inl p ↦ inl (cc)
    | inr c ↦ inr c
  ]

  node_hash-injective :
      (a b c d : Bytes)
      → length a ≡ length c
      → node_hash sha256 a b ≡ node_hash sha256 c d
      → ((a ≡ c) × (b ≡ d)) ⊎ Collision sha256
  unfolding node_hash
  node_hash-injective a b c d h e = elim (hash-injective (1 ∷ (a ++ b)) (1 ∷ (c ++ d)) e) [
    | inl p ↦ inl (append-injective a b c d h (cc))
    | inr k ↦ inr k
  ]

  combine-injective :
      (n l : ℕ) (s r s' r' : Bytes)
      → Is32 s
      → Is32 r
      → Is32 s'
      → Is32 r'
      → combine sha256 n l s r ≡ combine sha256 n l s' r'
      → ((s ≡ s') × (r ≡ r')) ⊎ Collision sha256
  combine-injective n l s r s' r' hs hr hs' hr' e = elim (Bool-cases (sibling_is_left n l)) [
    | inl t ↦ node_hash-injective s r s' r' (omega arith) (unfold combine in rw t at e)
    | inr t ↦ elim (node_hash-injective r s r' s' (omega arith) (unfold combine in rw t at e)) [
      | inl (p, q) ↦ inl (q, p)
      | inr k ↦ inr k
    ]
  ]

module _ (sha256 : Bytes → Bytes) (sha256-Is32 : (x : Bytes) → Is32 (sha256 x)) where
  combine-Is32 : (n l : ℕ) (s r : Bytes) → Is32 (combine sha256 n l s r)
  unfolding combine node_hash
  combine-Is32 n l s r = ground (arith, sha256-Is32 (1 ∷ (s ++ r)), sha256-Is32 (1 ∷ (r ++ s)))

  -- Two paths that lead from the same place to the same root are one, and so are their starts.
  walk_unique :
      (p p' : List Bytes) (n l : ℕ) (r r' root : Bytes)
      → All Is32 p
      → All Is32 p'
      → Is32 r
      → Is32 r'
      → walk sha256 p n l r ≡ ok root
      → walk sha256 p' n l r' ≡ ok root
      → ((r ≡ r') × (p ≡ p')) ⊎ Collision sha256
  unfolding walk
  walk_unique [] [] n l r r' root hp hp' hr hr' e e' = inl (ground arith)
  walk_unique [] (s' ∷ p') n l r r' root hp hp' hr hr' e e' = absurd (ground arith)
  walk_unique (s ∷ p) [] n l r r' root hp hp' hr hr' e e' = absurd (ground arith)
  walk_unique (s ∷ p) (s' ∷ p') n l r r' root hp hp' hr hr' e e' =
      elim (walk_unique p p' (climb n l).0 (climb n l).1 (combine sha256 n l s r)
        (combine sha256 n l s' r') root hp.1 hp'.1 (combine-Is32 n l s r) (combine-Is32 n l s' r')
        (ground arith) (ground arith)) [
          | inl (q, t) ↦ elim (combine-injective sha256 n l s r s' r' hp.0 hr hp'.0 hr' q) [
            | inl (a, b) ↦ inl (b, cc)
            | inr k ↦ inr k
          ]
          | inr k ↦ inr k
        ]

  tree_hash-Is32 : (h : ℕ) (ds : List Bytes) → Is32 (tree_hash sha256 h ds)
  unfolding tree_hash leaf_hash node_hash
  tree_hash-Is32 h [] = sha256-Is32 []
  tree_hash-Is32 zero (d ∷ ds) = sha256-Is32 (0 ∷ d)
  tree_hash-Is32 (suc h) (d ∷ ds) = ground (
    arith,
    tree_hash-Is32 h (d ∷ ds),
    sha256-Is32 (
        1
        ∷ (tree_hash sha256 h (take (2 ^ h) (d ∷ ds))
            ++ tree_hash sha256 h (drop (2 ^ h) (d ∷ ds)))),
  )

  audit_path-Is32 : (h m : ℕ) (ds : List Bytes) → All Is32 (audit_path sha256 h m ds)
  unfolding audit_path
  audit_path-Is32 zero m ds = tt
  audit_path-Is32 (suc h) m ds = elim (Bool-cases (leb (length ds) (2 ^ h))) [
    | inl t ↦ rw t (audit_path-Is32 h m ds)
    | inr t ↦ rw t (elim (Bool-cases (ltb m (2 ^ h))) [
      | inl u ↦ rw u (All-snoc _ _ (audit_path-Is32 h m (take (2 ^ h) ds)) (tree_hash-Is32 h _))
      | inr u ↦
          rw u (All-snoc _ _ (audit_path-Is32 h (m - 2 ^ h) (drop (2 ^ h) ds)) (tree_hash-Is32 h _))
    ])
  ]

  -- A proof that reconstructs the hash of a tree with the tree's size is for the entry at its index,
  -- and its path is that entry's audit path; otherwise two inputs with one SHA-256 value are at hand.
  pub reconstruct_root_sound :
      (h : ℕ) (ds : List Bytes) (proof : InclusionProof) (entry : Bytes)
      → proof.tree_size ≡ length ds
      → length ds ≤ 2 ^ h
      → All Is32 proof.inclusion_path
      → reconstruct_root sha256 proof (leaf_hash sha256 entry) ≡ ok (tree_hash sha256 h ds)
      → ((get_elem? ds proof.leaf_index ≡ some entry)
          × (proof.inclusion_path ≡ audit_path sha256 h proof.leaf_index ds))
        ⊎ Collision sha256
  reconstruct_root_sound h ds proof entry size small wide e =
      let (below, run) = reconstruct_root-ok sha256 proof _ _ e in
      let (x, at) = get_elem?-below ds proof.leaf_index (omega arith) in
      let (_, run') =
        reconstruct_root-ok sha256 _ _ _
          (reconstruct_root-audit_path sha256 h proof.leaf_index ds x small at) in
      let run'' : walk sha256 proof.inclusion_path proof.leaf_index (length ds - 1)
            (leaf_hash sha256 entry)
          ≡ ok (tree_hash sha256 h ds) =
        rw size at run in
      elim (walk_unique proof.inclusion_path (audit_path sha256 h proof.leaf_index ds)
        proof.leaf_index (length ds - 1) (leaf_hash sha256 entry) (leaf_hash sha256 x)
        (tree_hash sha256 h ds) wide (audit_path-Is32 h proof.leaf_index ds)
        (unfold leaf_hash in sha256-Is32 _) (unfold leaf_hash in sha256-Is32 _) run'' run') [
          | inl (same, path) ↦ elim (leaf_hash-injective sha256 entry x same) [
            | inl p ↦ inl (at ∙ ap some (sym p), path)
            | inr k ↦ inr k
          ]
          | inr k ↦ inr k
        ]
