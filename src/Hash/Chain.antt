-- ===== src/Hash/Chain.antt =====
-- hash.c, one chain under the changes of a table.
use checkedc_vsftpd.Base.{ℕ, ◌+◌, ◌≤◌, ◌≡◌, refl, none, some, [], ◌∷◌, arith, if◌then◌else◌}
use checkedc_vsftpd.Hash.{Key, Nodes, find, unlink, assign}

module _ {ℓ} {K V : Type ℓ} ⦃key : Key K⦄ where
  abbrev pub count : K → Nodes K V → ℕ
  count k [] = 0
  count k (n ∷ c) = (if key.beq k n.0 then 1 else 0) + count k c

  pub find-absent : (q : K) (c : Nodes K V) → count q c ≡ 0 → find q c ≡ none
  unfolding find
  find-absent q [] h = refl
  find-absent q (n ∷ c) h = ground (arith, find-absent q c)

  pub absent-find : (q : K) (c : Nodes K V) → find q c ≡ none → count q c ≡ 0
  unfolding find
  absent-find q [] h = refl
  absent-find q (n ∷ c) h = ground (arith, absent-find q c)

  pub find-unlink :
      (k q : K) (c : Nodes K V)
      → count k c ≤ 1
      → find q (unlink k c) ≡ (if key.beq q k then none else find q c)
  unfolding find unlink
  find-unlink k q [] h = ground arith
  find-unlink k q (n ∷ c) h = ground (
    arith,
    find-unlink k q c,
    find-absent q c,
    key.beq_iff q k,
    key.beq_iff k n.0,
    key.beq_iff q n.0,
  )

  pub count-unlink : (k q : K) (c : Nodes K V) → count q (unlink k c) ≤ count q c
  unfolding unlink
  count-unlink k q [] = omega arith
  count-unlink k q (n ∷ c) = ground (arith, count-unlink k q c)

  pub find-assign :
      (k q : K) (v : V) (c : Nodes K V) (old : V)
      → find k c ≡ some old
      → find q (assign k v c) ≡ (if key.beq q k then some v else find q c)
  unfolding find assign
  find-assign k q v [] old h = cc
  find-assign k q v (n ∷ c) old h =
      ground (arith, find-assign k q v c old, key.beq_iff q k, key.beq_iff k n.0, key.beq_iff q n.0)

  pub count-assign : (k q : K) (v : V) (c : Nodes K V) → count q (assign k v c) ≡ count q c
  unfolding assign
  count-assign k q v [] = refl
  count-assign k q v (n ∷ c) = ground (arith, count-assign k q v c)
