-- ===== src/Hash/Laws.antt =====
-- hash.c, the table as a map.
use mathlib.Core.Bool.{false≢true}
use checkedc_vsftpd.Base.{
  ℕ, zero, suc, ◌≤◌, ◌<◌, ◌≡◌, refl, sym, ap, ◌∙◌, subst, inl, inr, false, Option, none, some, List,
  [], ◌∷◌, arith, leb, ◌==◌, if◌then◌else◌, Bool-cases, ==_iff, length, get_elem?, replicate,
  length-replicate,
}
use checkedc_vsftpd.Run.{Fault, ok, fault, Returns}
use checkedc_vsftpd.Hash.{
  Key, Nodes, Hash, set, find, unlink, assign, hash_alloc, hash_get_bucket, hash_get_node_by_key,
  hash_lookup_entry, hash_add_entry, hash_free_entry, hash_store,
}
use checkedc_vsftpd.Hash.Chain.{
  count, absent-find, find-unlink, count-unlink, find-assign, count-assign,
}

module _ {ℓ} {A : Type ℓ} where
  abbrev pub chain_at : List (List A) → ℕ → List A
  chain_at [] i = []
  chain_at (c ∷ cs) zero = c
  chain_at (c ∷ cs) (suc i) = chain_at cs i

  get_elem?-chain_at :
      (cs : List (List A)) (i : ℕ) → i < length cs → get_elem? cs i ≡ some (chain_at cs i)
  get_elem?-chain_at [] i h = elim h [ ]
  get_elem?-chain_at (c ∷ cs) zero h = refl
  get_elem?-chain_at (c ∷ cs) (suc i) h = get_elem?-chain_at cs i (omega arith)

  chain_at-set :
      (cs : List (List A)) (i j : ℕ) (c : List A)
      → i < length cs
      → chain_at (set cs i c) j ≡ (if j == i then c else chain_at cs j)
  chain_at-set [] i j c h = elim h [ ]
  chain_at-set (d ∷ cs) zero zero c h = ground arith
  chain_at-set (d ∷ cs) zero (suc j) c h = ground arith
  chain_at-set (d ∷ cs) (suc i) zero c h = ground arith
  chain_at-set (d ∷ cs) (suc i) (suc j) c h = ground (arith, chain_at-set cs i j c)

  length-set : (cs : List A) (i : ℕ) (c : A) → length (set cs i c) ≡ length cs
  length-set [] i c = refl
  length-set (d ∷ cs) zero c = refl
  length-set (d ∷ cs) (suc i) c = ap suc (length-set cs i c)

  chain_at-replicate : (n i : ℕ) → chain_at (replicate n []) i ≡ []
  chain_at-replicate zero i = refl
  chain_at-replicate (suc n) zero = refl
  chain_at-replicate (suc n) (suc i) = chain_at-replicate n i

module _ {ℓ} {K V : Type ℓ} ⦃key : Key K⦄ where
  abbrev pub home : Hash K V → K → ℕ
  home h k = h.hash_func h.buckets k

  abbrev pub chain_of : Hash K V → K → Nodes K V
  chain_of h k = chain_at h.p_nodes (home h k)

  -- The map that the table stands for.
  unfoldable pub view : Hash K V → K → Option V
  view h k = find k (chain_of h k)

  -- The array has its length, the hash function stays in it, and no key stands twice.
  pub record IsValid (h : Hash K V) : Type ℓ where
    pub width : length h.p_nodes ≡ h.buckets
    pub inside : (k : K) → home h k < h.buckets
    pub once : (k : K) → count k (chain_of h k) ≤ 1

  abbrev pub update : (K → Option V) → K → Option V → K → Option V
  update f k v q = if key.beq q k then v else f q

  -- A valid table that stands for `f`.
  abbrev pub Models : (K → Option V) → Hash K V → Type ℓ
  Models f h = IsValid h × ((q : K) → view h q ≡ f q)

  bucket-chain_of :
      (h : Hash K V) (k : K) → IsValid h → hash_get_bucket h k ≡ ok (home h k, chain_of h k)
  unfolding hash_get_bucket
  bucket-chain_of h k v =
      rw
        (
          not_leb h.buckets (home h k) (v.inside k),
          get_elem?-chain_at h.p_nodes (home h k) (rw v.width (v.inside k)),
        )
        refl
    where
      not_leb : (a c : ℕ) → c < a → leb a c ≡ false
      not_leb a c h = ground arith

  abbrev put_chain : Hash K V → K → Nodes K V → Hash K V
  put_chain h k c = record h { p_nodes = set h.p_nodes (home h k) c }

  chain_of-put_chain :
      (h : Hash K V) (k q : K) (c : Nodes K V)
      → IsValid h
      → chain_of (put_chain h k c) q ≡ (if home h q == home h k then c else chain_of h q)
  chain_of-put_chain h k q c v =
      chain_at-set h.p_nodes (home h k) (home h q) c (rw v.width (v.inside k))

  same_chain : (h : Hash K V) (q k : K) → home h q ≡ home h k → chain_of h q ≡ chain_of h k
  same_chain h q k e = ap (chain_at h.p_nodes) e

  not_same : (h : Hash K V) (q k : K) → (home h q == home h k) ≡ false → key.beq q k ≡ false
  not_same h q k e = elim (Bool-cases (key.beq q k)) [
    | inr n ↦ n
    | inl s ↦ absurd (false≢true (sym e ∙ (==_iff _ _).1 (ap (home h) ((key.beq_iff q k).0 s))))
  ]

  -- A bucket exchanged for a chain that changes nothing but the entry of its key.
  put_chain-Models :
      (h : Hash K V) (k : K) (c : Nodes K V) (v : Option V)
      → IsValid h
      → ((q : K) → find q c ≡ (if key.beq q k then v else find q (chain_of h k)))
      → ((q : K) → count q (chain_of h k) ≤ 1 → count q c ≤ 1)
      → Models (update (view h) k v) (put_chain h k c)
  unfolding view
  put_chain-Models h k c v valid found single = (
    record {
      width = length-set h.p_nodes (home h k) c ∙ valid.width;
      inside = valid.inside;
      once = λ q. rw (chain_of-put_chain h k q c valid) (elim (Bool-cases (home h q == home h k)) [
        | inl e ↦ rw e (
            single q
              (subst (λ d. count q d ≤ 1) (same_chain h q k ((==_iff _ _).0 e)) (valid.once q)))
        | inr e ↦ rw e (valid.once q)
      ]);
    },
    λ q. rw (chain_of-put_chain h k q c valid) (elim (Bool-cases (home h q == home h k)) [
      | inl e ↦ rw (e, same_chain h q k ((==_iff _ _).0 e)) (found q)
      | inr e ↦ rw (e, not_same h q k e) refl
    ]),
  )

  pub hash_alloc-Models :
      (buckets : ℕ) (hash_func : ℕ → K → ℕ)
      → ((k : K) → hash_func buckets k < buckets)
      → Models (λ _. none) (hash_alloc buckets hash_func)
  unfolding hash_alloc view find
  hash_alloc-Models buckets hash_func inside = (
    record {
      width = length-replicate buckets [];
      inside = inside;
      once = λ k. rw (chain_at-replicate {A = K × V} buckets (hash_func buckets k)) (omega arith);
    },
    λ q. rw (chain_at-replicate {A = K × V} buckets (hash_func buckets q)) refl,
  )

  node-view : (h : Hash K V) (k : K) → IsValid h → hash_get_node_by_key h k ≡ ok (view h k)
  unfolding hash_get_node_by_key view
  node-view h k v = rw (bucket-chain_of h k v) refl

  -- A lookup reads the map.
  pub hash_lookup_entry-view :
      (h : Hash K V) (k : K) → IsValid h → hash_lookup_entry h k ≡ ok (view h k)
  unfolding hash_lookup_entry
  hash_lookup_entry-view h k v = node-view h k v

  -- Adding a key that a valid table does not hold returns a valid table, in which the key has the
  -- value and all others are as before.
  pub hash_add_entry-Models :
      (h : Hash K V) (k : K) (x : V)
      → IsValid h
      → view h k ≡ none
      → Returns (hash_add_entry h k x) (Models (update (view h) k (some x)))
  unfolding hash_add_entry
  hash_add_entry-Models h k x v absent =
      let c = chain_of h k in
      let gone = absent-find k c (unfold view in absent) in
      (
        put_chain h k ((k, x) ∷ c),
        rw (hash_lookup_entry-view h k v, absent, bucket-chain_of h k v) refl,
        put_chain-Models h k ((k, x) ∷ c) (some x) v (λ q. unfold find in refl)
            (λ q one. ground (arith, key.beq_iff q k)),
      )

  -- Adding a key that a valid table holds ends in `bug`.
  pub hash_add_entry-duplicate :
      (h : Hash K V) (k : K) (x : V) {old : V}
      → IsValid h
      → view h k ≡ some old
      → hash_add_entry h k x ≡ fault Fault.bug
  unfolding hash_add_entry
  hash_add_entry-duplicate h k x v there = rw (hash_lookup_entry-view h k v, there) refl

  -- Freeing a key that a valid table holds returns a valid table without the key, in which all
  -- others are as before.
  pub hash_free_entry-Models :
      (h : Hash K V) (k : K) {old : V}
      → IsValid h
      → view h k ≡ some old
      → Returns (hash_free_entry h k) (Models (update (view h) k none))
  unfolding hash_free_entry
  hash_free_entry-Models h k v there =
      let c = chain_of h k in
      (
        put_chain h k (unlink k c),
        rw (node-view h k v, there, bucket-chain_of h k v) refl,
        put_chain-Models h k (unlink k c) none v (λ q. find-unlink k q c (v.once k))
            (λ q one. omega (arith, count-unlink k q c)),
      )

  -- Freeing a key that the table does not hold is refused.
  pub hash_free_entry-absent :
      (h : Hash K V) (k : K) → IsValid h → view h k ≡ none → hash_free_entry h k ≡ fault Fault.bug
  unfolding hash_free_entry
  hash_free_entry-absent h k v absent = rw (node-view h k v, absent) refl

  -- A write through the pointer of a lookup that found its key changes the value of that key
  -- alone, and the table stays valid.
  pub hash_store-Models :
      (h : Hash K V) (k : K) (x old : V)
      → IsValid h
      → view h k ≡ some old
      → Returns (hash_store h k x) (Models (update (view h) k (some x)))
  unfolding hash_store
  hash_store-Models h k x old v there =
      let c = chain_of h k in
      (
        put_chain h k (assign k x c),
        rw (bucket-chain_of h k v) refl,
        put_chain-Models h k (assign k x c) (some x) v
            (λ q. find-assign k q x c old (unfold view in there))
            (λ q one. omega (arith, count-assign k q x c)),
      )
