-- ===== src/Wire/Merkle/Inner.antt =====
-- `walk` along the audit path through a complete subtree that is not the last one at its height.
use pask_workspace.Prelude.{
  ℕ, zero, suc, ◌+◌, ◌-◌, ◌*◌, ◌^◌, ◌≤◌, ◌<◌, ◌≡◌, refl, sym, ap, dec_lt, ◌∙◌, ◌≢◌, arith, some,
  List, [], ◌∷◌, ◌++◌, append_assoc, length, take, drop, get_elem?, pow-suc, length-take,
  length-drop, get_elem?-take, get_elem?-drop,
}
use pask_workspace.Wire.Merkle.{Bytes, leaf_hash, node_hash, climb, combine, walk}
use pask_workspace.Wire.Merkle.Tree.{tree_hash, audit_path}
use pask_workspace.Wire.Merkle.Steps.{
  mul-pow_pos, climb-inner, combine-right_sibling, combine-left_sibling,
}

pub single :
    (ds : List Bytes) (m : ℕ) (x : Bytes)
    → length ds ≡ 1
    → get_elem? ds m ≡ some x
    → (m ≡ 0) × (ds ≡ x ∷ [])
single [] m x h e = absurd (omega arith)
single (d ∷ []) zero x h e = (refl, cc)
single (d ∷ []) (suc m) x h e = cc
single (d ∷ d' ∷ ds) m x h e = absurd (omega arith)

pub get_elem?-some-lt {ℓ} :
    {A : Type ℓ} (xs : List A) (m : ℕ) {x : A} → get_elem? xs m ≡ some x → m < length xs
get_elem?-some-lt [] m e = cc
get_elem?-some-lt (x ∷ xs) zero e = omega arith
get_elem?-some-lt (x ∷ xs) (suc m) e = omega (arith, get_elem?-some-lt xs m e)

pub double : (h : ℕ) → 2 ^ suc h ≡ 2 ^ h + 2 ^ h
double h = rw pow-suc (omega arith)

pub mul-double : (a h : ℕ) → a * 2 ^ suc h ≡ a * 2 ^ h + a * 2 ^ h
mul-double a h = rw pow-suc (omega arith)

pub two_pos : (h : ℕ) → 0 < 2 ^ h
two_pos h = omega (arith, mul-pow_pos 1 h (omega arith))

-- An offset below 2 ^ (h + 1) is its top bit and the rest.
halves :
    (h c : ℕ) → c < 2 ^ suc h → (b : ℕ) × (c' : ℕ) × (b < 2) × (c' < 2 ^ h) × (c ≡ b * 2 ^ h + c')
halves h c p = elim (dec_lt c (2 ^ h)) [
  | yes k ↦ (0, c, omega arith, k, omega arith)
  | no k ↦ (1, c - 2 ^ h, omega arith, omega (arith, double h), omega (arith, double h))
]

module _ (sha256 : Bytes → Bytes) where
  pub tree_hash-node :
      (h : ℕ) (ds : List Bytes)
      → 2 ^ h < length ds
      → tree_hash sha256 (suc h) ds
        ≡ node_hash sha256
            (tree_hash sha256 h (take (2 ^ h) ds))
            (tree_hash sha256 h (drop (2 ^ h) ds))
  unfolding tree_hash
  tree_hash-node h [] p = absurd (omega arith)
  tree_hash-node h (d ∷ ds) p = ground arith

  pub tree_hash-small :
      (h : ℕ) (ds : List Bytes)
      → length ds ≤ 2 ^ h
      → tree_hash sha256 (suc h) ds ≡ tree_hash sha256 h ds
  unfolding tree_hash
  tree_hash-small h [] p = refl
  tree_hash-small h (d ∷ ds) p = ground arith

  pub walk-step :
      (sib : Bytes) (path : List Bytes) (n l n' l' : ℕ) (root : Bytes)
      → l ≢ 0
      → climb n l ≡ (n', l')
      → walk sha256 (sib ∷ path) n l root ≡ walk sha256 path n' l' (combine sha256 n l sib root)
  unfolding walk
  walk-step sib path n l n' l' root h e = rw e (ground arith)

  pub audit_path-left :
      (h m : ℕ) (ds : List Bytes)
      → 2 ^ h < length ds
      → m < 2 ^ h
      → audit_path sha256 (suc h) m ds
        ≡ audit_path sha256 h m (take (2 ^ h) ds) ++ (tree_hash sha256 h (drop (2 ^ h) ds) ∷ [])
  unfolding audit_path
  audit_path-left h m ds p k = ground arith

  pub audit_path-right :
      (h m : ℕ) (ds : List Bytes)
      → 2 ^ h < length ds
      → 2 ^ h ≤ m
      → audit_path sha256 (suc h) m ds
        ≡ audit_path sha256 h (m - 2 ^ h) (drop (2 ^ h) ds)
          ++ (tree_hash sha256 h (take (2 ^ h) ds) ∷ [])
  unfolding audit_path
  audit_path-right h m ds p k = ground arith

  pub audit_path-small :
      (h m : ℕ) (ds : List Bytes)
      → length ds ≤ 2 ^ h
      → audit_path sha256 (suc h) m ds ≡ audit_path sha256 h m ds
  unfolding audit_path
  audit_path-small h m ds p = ground arith

  -- The last step to a node with two children, from the left one and from the right one.
  join-left :
      (h q s b n l : ℕ) (ds rest : List Bytes)
      → 2 ^ h < length ds
      → q < s
      → b < 2
      → n ≡ 2 * q
      → l ≡ 2 * s + b
      → walk sha256
          (tree_hash sha256 h (drop (2 ^ h) ds) ∷ rest)
          n
          l
          (tree_hash sha256 h (take (2 ^ h) ds))
        ≡ walk sha256 rest q s (tree_hash sha256 (suc h) ds)
  join-left h q s b n l ds rest p hq hb en el =
      walk-step _ rest n l q s _ (omega arith)
        (climb-inner q s n l 0 b hq (omega arith) hb (omega arith) el)
      ∙ ap (walk sha256 rest q s)
          (combine-right_sibling sha256 q n l _ _ en (omega arith) ∙ sym (tree_hash-node h ds p))

  join-right :
      (h q s b n l : ℕ) (ds rest : List Bytes)
      → 2 ^ h < length ds
      → q < s
      → b < 2
      → n ≡ 2 * q + 1
      → l ≡ 2 * s + b
      → walk sha256
          (tree_hash sha256 h (take (2 ^ h) ds) ∷ rest)
          n
          l
          (tree_hash sha256 h (drop (2 ^ h) ds))
        ≡ walk sha256 rest q s (tree_hash sha256 (suc h) ds)
  join-right h q s b n l ds rest p hq hb en el =
      walk-step _ rest n l q s _ (omega arith) (climb-inner q s n l 1 b hq (omega arith) hb en el)
      ∙ ap (walk sha256 rest q s)
          (combine-left_sibling sha256 q n l _ _ en ∙ sym (tree_hash-node h ds p))

  -- A complete subtree that is not the last one at its height.
  pub walk-inner :
      (h q s m c n l : ℕ) (ds rest : List Bytes) (x : Bytes)
      → length ds ≡ 2 ^ h
      → get_elem? ds m ≡ some x
      → q < s
      → c < 2 ^ h
      → n ≡ q * 2 ^ h + m
      → l ≡ s * 2 ^ h + c
      → walk sha256 (audit_path sha256 h m ds ++ rest) n l (leaf_hash sha256 x)
        ≡ walk sha256 rest q s (tree_hash sha256 h ds)
  unfolding audit_path tree_hash
  walk-inner zero q s m c n l ds rest x hl hx hq hc en el =
      let (em, ed) = single ds m x hl hx in
      let en' : n ≡ q = omega arith in let el' : l ≡ s = omega arith in rw (ed, en', el')
  walk-inner (suc h) q s m c n l ds rest x hl hx hq hc en el =
      let p : length ds ≡ 2 ^ h + 2 ^ h = hl ∙ double h in
      let wide : 2 ^ h < length ds = omega (arith, two_pos h) in
      let (b, c', hb, hc', ec) = halves h c hc in
      let el' : l ≡ (2 * s + b) * 2 ^ h + c' = omega (arith, mul-double s h) in
      elim (dec_lt m (2 ^ h)) [
        | yes k ↦
            rw (audit_path-left h m ds wide k, append_assoc)
              (walk-inner h (2 * q) (2 * s + b) m c' n l (take (2 ^ h) ds) _ x
                  (length-take (2 ^ h) ds ∙ omega arith) (get_elem?-take (2 ^ h) m ds k ∙ hx)
                  (omega arith) hc' (omega (arith, mul-double q h)) el'
                ∙ join-left h q s b (2 * q) (2 * s + b) ds rest wide hq hb refl refl)
        | no k ↦
            let hm : 2 ^ h ≤ m = omega arith in
            rw (audit_path-right h m ds wide hm, append_assoc)
              (walk-inner h (2 * q + 1) (2 * s + b) (m - 2 ^ h) c' n l (drop (2 ^ h) ds) _ x
                  (length-drop (2 ^ h) ds ∙ omega arith)
                  (get_elem?-drop (2 ^ h) (m - 2 ^ h) m ds (omega arith) ∙ hx) (omega arith) hc'
                  (omega (arith, mul-double q h)) el'
                ∙ join-right h q s b (2 * q + 1) (2 * s + b) ds rest wide hq hb refl refl)
      ]
