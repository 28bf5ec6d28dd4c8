-- ===== src/Wire/Merkle/Complete.antt =====
-- `reconstruct_root` arrives at the tree hash along the audit path of a leaf.
use pask_workspace.Prelude.{
  ℕ, zero, suc, ◌+◌, ◌-◌, ◌*◌, ◌^◌, ◌≤◌, ◌<◌, ◌≡◌, refl, sym, ap, dec_lt, dec_le, ◌∙◌, arith, some,
  List, [], ◌∷◌, ◌++◌, append_assoc, append-nil, length, take, drop, get_elem?, ok, length-take,
  length-drop, get_elem?-take, get_elem?-drop,
}
use pask_workspace.Wire.Merkle.{Bytes, leaf_hash, walk, reconstruct_root}
use pask_workspace.Wire.Merkle.Tree.{tree_hash, audit_path}
use pask_workspace.Wire.Merkle.Steps.{
  mul-pow_pos, climb-last, climb-before_last, combine-right_sibling, combine-last,
}
use pask_workspace.Wire.Merkle.Inner.{
  single, double, mul-double, get_elem?-some-lt, tree_hash-node, tree_hash-small, walk-step,
  audit_path-left, audit_path-right, audit_path-small, walk-inner,
}

module _ (sha256 : Bytes → Bytes) where
  walk-root : (j : ℕ) (root : Bytes) → walk sha256 [] (0 * 2 ^ j) (0 * 2 ^ j) root ≡ ok root
  unfolding walk
  walk-root j root = let z : 0 * 2 ^ j ≡ 0 = omega arith in rw z

  last-left :
      (h q m n l : ℕ) (ds rest : List Bytes) (x : Bytes)
      → 2 ^ h < length ds
      → length ds ≤ 2 ^ suc h
      → get_elem? ds m ≡ some x
      → m < 2 ^ h
      → n ≡ q * 2 ^ suc h + m
      → l + 1 ≡ q * 2 ^ suc h + length ds
      → walk sha256 (audit_path sha256 (suc h) m ds ++ rest) n l (leaf_hash sha256 x)
        ≡ walk sha256 rest q q (tree_hash sha256 (suc h) ds)
  last-left h q m n l ds rest x wide hl hx k en el =
      let p : length ds ≤ 2 ^ h + 2 ^ h = omega (arith, double h) in
      rw (audit_path-left sha256 h m ds wide k, append_assoc)
        (walk-inner sha256 h (2 * q) (2 * q + 1) m (length ds - 1 - 2 ^ h) n l (take (2 ^ h) ds) _ x
            (length-take (2 ^ h) ds ∙ omega arith) (get_elem?-take (2 ^ h) m ds k ∙ hx)
            (omega arith) (omega arith) (omega (arith, mul-double q h))
            (omega (arith, mul-double q h))
          ∙ walk-step sha256 _ rest (2 * q) (2 * q + 1) q q _ (omega arith)
              (climb-before_last q (2 * q) (2 * q + 1) refl refl)
          ∙ ap (walk sha256 rest q q) (
              combine-right_sibling sha256 q (2 * q) (2 * q + 1) _ _ refl (omega arith)
              ∙ sym (tree_hash-node sha256 h ds wide)))

  last-right :
      (h q j n : ℕ) (ds rest : List Bytes)
      → 2 ^ h < length ds
      → n ≡ (2 * q + 1) * 2 ^ j
      → walk sha256
          (tree_hash sha256 h (take (2 ^ h) ds) ∷ rest)
          n
          n
          (tree_hash sha256 h (drop (2 ^ h) ds))
        ≡ walk sha256 rest q q (tree_hash sha256 (suc h) ds)
  last-right h q j n ds rest wide en =
      walk-step sha256 _ rest n n q q _ (omega (arith, mul-pow_pos (2 * q + 1) j (omega arith)))
        (climb-last j q n en)
      ∙ ap (walk sha256 rest q q)
          (combine-last sha256 n _ _ ∙ sym (tree_hash-node sha256 h ds wide))

  -- The last subtree at its height. Its root may be reached some levels below `h`, where both
  -- indices are still `q` times a power of two.
  walk-last :
      (h q m n l : ℕ) (ds rest : List Bytes) (x : Bytes)
      → length ds ≤ 2 ^ h
      → get_elem? ds m ≡ some x
      → n ≡ q * 2 ^ h + m
      → l + 1 ≡ q * 2 ^ h + length ds
      → (j : ℕ) × (walk sha256 (audit_path sha256 h m ds ++ rest) n l (leaf_hash sha256 x)
          ≡ walk sha256 rest (q * 2 ^ j) (q * 2 ^ j) (tree_hash sha256 h ds))
  walk-last zero q m n l ds rest x hl hx en el =
      let (em, ed) = single ds m x (omega (arith, get_elem?-some-lt ds m hx)) hx in
      let en' : n ≡ q * 2 ^ 0 = omega arith in
      let el' : l ≡ q * 2 ^ 0 = omega (arith, ap (length {A = Bytes}) ed) in
      (0, unfold audit_path tree_hash in rw (ed, en', el'))
  walk-last (suc h) q m n l ds rest x hl hx en el = elim (dec_le (length ds) (2 ^ h)) [
    | yes small ↦
        let (j, e) =
          walk-last h (2 * q) m n l ds rest x small hx (omega (arith, mul-double q h))
            (omega (arith, mul-double q h)) in
        let ej : 2 * q * 2 ^ j ≡ q * 2 ^ suc j = omega (arith, mul-double q j) in
        (
          suc j,
          rw (audit_path-small sha256 h m ds small, tree_hash-small sha256 h ds small) (rw ej at e),
        )
    | no wide' ↦
        let wide : 2 ^ h < length ds = omega arith in
        let z : q * 2 ^ 0 ≡ q = omega arith in
        elim (dec_lt m (2 ^ h)) [
          | yes k ↦ (0, rw z (last-left h q m n l ds rest x wide hl hx k en el))
          | no k ↦
              let (j, e) =
                walk-last h (2 * q + 1) (m - 2 ^ h) n l (drop (2 ^ h) ds)
                  (tree_hash sha256 h (take (2 ^ h) ds) ∷ rest) x
                  (omega (arith, length-drop (2 ^ h) ds, double h))
                  (get_elem?-drop (2 ^ h) (m - 2 ^ h) m ds (omega arith) ∙ hx)
                  (omega (arith, mul-double q h))
                  (omega (arith, mul-double q h, length-drop (2 ^ h) ds)) in
              (
                0,
                rw (z, audit_path-right sha256 h m ds wide (omega arith), append_assoc)
                    (e ∙ last-right h q j _ ds rest wide refl),
              )
        ]
  ]

  -- For a leaf of a tree of any size, the inclusion proof with the tree's size, the leaf's index and
  -- its RFC 9162 audit path reconstructs the tree's hash from the hash of the leaf.
  pub reconstruct_root-audit_path :
      (h m : ℕ) (ds : List Bytes) (x : Bytes)
      → length ds ≤ 2 ^ h
      → get_elem? ds m ≡ some x
      → reconstruct_root sha256
          (record {
            tree_size = length ds;
            leaf_index = m;
            inclusion_path = audit_path sha256 h m ds;
          })
          (leaf_hash sha256 x)
        ≡ ok (tree_hash sha256 h ds)
  reconstruct_root-audit_path h m ds x hl hx =
      let k : m < length ds = get_elem?-some-lt ds m hx in
      let (j, e) = walk-last h 0 m m (length ds - 1) ds [] x hl hx (omega arith) (omega arith) in
      let e' : walk sha256 (audit_path sha256 h m ds) m (length ds - 1) (leaf_hash sha256 x)
          ≡ ok (tree_hash sha256 h ds) =
        rw append-nil at e ∙ walk-root j _ in
      unfold reconstruct_root in ground (arith, e')
