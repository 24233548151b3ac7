-- ===== src/Hash.antt =====
-- hash.c: the chained hash table. A bucket is the chain of nodes in the order of `p_next`; `p_prev`
-- is the other direction of the same chain. Nodes are the table's own, so a chain is a value.
-- `hash_func` is a parameter, and keys are compared byte by byte, here by `beq`.
pub mod Chain
pub mod Laws
use checkedc_vsftpd.Base.{
  ℕ, zero, suc, ◌≡◌, ◌↔◌, Bool, true, false, Option, none, some, List, [], ◌∷◌, leb, if◌then◌else◌,
  get_elem?, replicate,
}
use checkedc_vsftpd.Run.{Run, Fault, ok, fault, ◌>>=◌}

-- `vsf_sysutil_memcmp(..) == 0` on two keys.
pub record Key {ℓ} (K : Type ℓ) : Type ℓ where
  pub beq : K → K → Bool
  pub beq_iff : (a b : K) → (beq a b ≡ true) ↔ (a ≡ b)

abbrev pub Nodes {ℓ} : Type ℓ → Type ℓ → Type ℓ
Nodes K V = List (K × V)

-- A write out of range changes nothing.
abbrev pub set {ℓ} : {A : Type ℓ} → List A → ℕ → A → List A
set [] i v = []
set (x ∷ xs) zero v = v ∷ xs
set (x ∷ xs) (suc i) v = x ∷ set xs i v

pub record Hash {ℓ} (K V : Type ℓ) : Type ℓ where
  pub buckets : ℕ
  pub p_nodes : List (Nodes K V)
  pub hash_func : ℕ → K → ℕ

module _ {ℓ} {K V : Type ℓ} ⦃key : Key K⦄ where
  -- The node with the key, as its value.
  unfoldable pub find : K → Nodes K V → Option V
  find k [] = none
  find k (n ∷ c) = if key.beq k n.0 then some n.1 else find k c

  -- Unlinking the node that `find` stops at.
  unfoldable pub unlink : K → Nodes K V → Nodes K V
  unlink k [] = []
  unlink k (n ∷ c) = if key.beq k n.0 then c else n ∷ unlink k c

  -- A write through the value pointer of the node that `find` stops at.
  unfoldable pub assign : K → V → Nodes K V → Nodes K V
  assign k v [] = []
  assign k v (n ∷ c) = if key.beq k n.0 then (n.0, v) ∷ c else n ∷ assign k v c

  unfoldable pub hash_alloc : ℕ → (ℕ → K → ℕ) → Hash K V
  hash_alloc buckets hash_func = record {
    buckets = buckets;
    p_nodes = replicate buckets [];
    hash_func = hash_func;
  }

  -- The index of the bucket and its chain.
  unfoldable pub hash_get_bucket : Hash K V → K → Run (ℕ × Nodes K V)
  hash_get_bucket h k =
      let bucket = h.hash_func h.buckets k in
      if leb h.buckets bucket
      then fault Fault.bug
      else elim (get_elem? h.p_nodes bucket) [ none ↦ fault Fault.bounds | some c ↦ ok (bucket, c) ]

  unfoldable pub hash_get_node_by_key : Hash K V → K → Run (Option V)
  hash_get_node_by_key h k = hash_get_bucket h k >>= λ b. ok (find k b.1)

  unfoldable pub hash_lookup_entry : Hash K V → K → Run (Option V)
  hash_lookup_entry h k = hash_get_node_by_key h k

  unfoldable pub hash_add_entry : Hash K V → K → V → Run (Hash K V)
  hash_add_entry h k v = hash_lookup_entry h k >>= λ old. elim old [
    | some _ ↦ fault Fault.bug
    | none ↦
        hash_get_bucket h k >>= λ b. ok (record h { p_nodes = set h.p_nodes b.0 ((k, v) ∷ b.1) })
  ]

  unfoldable pub hash_free_entry : Hash K V → K → Run (Hash K V)
  hash_free_entry h k = hash_get_node_by_key h k >>= λ node. elim node [
    | none ↦ fault Fault.bug
    | some _ ↦
        hash_get_bucket h k >>= λ b. ok (record h { p_nodes = set h.p_nodes b.0 (unlink k b.1) })
  ]

  -- `*p_value = v` through the pointer that a lookup of `k` returned.
  unfoldable pub hash_store : Hash K V → K → V → Run (Hash K V)
  hash_store h k v =
      hash_get_bucket h k >>= λ b. ok (record h { p_nodes = set h.p_nodes b.0 (assign k v b.1) })
