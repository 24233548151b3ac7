-- ===== src/Strlist/Add.antt =====
-- strlist.c: adding, looking up and reading strings.
use mathlib.Core.Bool.{false≢true}
use native.Mathlib.Nat.{mul-le-mul}
use checkedc_vsftpd.Base.{
  ==-no, ℕ, ◌+◌, ◌*◌, ◌%◌, ◌≤◌, ◌<◌, ◌≡◌, ◌↔◌, refl, sym, ◌∙◌, ◌⊎◌, inl, inr, true, Option, none,
  some, List, [], ◌∷◌, ◌++◌, arith, ltb, ◌==◌, ◌||◌, if◌then◌else◌, Bool-cases, Bytes, length,
  length-append, le→ltb, ==_iff,
}
use checkedc_vsftpd.Run.{Fault, ok, fault, Returns, >>=-Returns}
use checkedc_vsftpd.Str.{u32_mod, int_max}
use checkedc_vsftpd.Text.{str_equal}
use checkedc_vsftpd.Text.Order.{str_equal_iff}
use checkedc_vsftpd.Strlist.{
  k_max_strlist, Node, new_node, StrList, str_list_contains_str, allocate, expand, str_list_add,
}

-- The list fits its array, and the array its maximum.
pub record IsValid (l : StrList) : Type 0 where
  pub within : length l.nodes ≤ l.alloc_len
  pub small : l.alloc_len ≤ k_max_strlist

allocate_ok :
    (node_size count : ℕ) (l : StrList)
    → 0 < node_size
    → node_size ≤ 200
    → 0 < count
    → count ≤ k_max_strlist
    → allocate node_size count l ≡ ok (record l { alloc_len = count })
unfolding allocate
allocate_ok node_size count l pos small some_nodes few =
    let big : count * node_size ≤ k_max_strlist * 200 = mul-le-mul few small in
    let positive : 1 * 1 ≤ count * node_size = mul-le-mul some_nodes pos in
    let same : count * node_size % u32_mod ≡ count * node_size = omega arith in
    rw
      (
        same,
        le→ltb int_max (count * node_size) (omega arith),
        ==-no (count * node_size) 0 (omega arith),
      )
      refl

expand_ok :
    (node_size : ℕ) (l : StrList)
    → 0 < node_size
    → node_size ≤ 200
    → IsValid l
    → length l.nodes < 5000000
    → Returns
        (expand node_size l)
        λ m. (m.nodes ≡ l.nodes) × (length l.nodes < m.alloc_len) × (m.alloc_len ≤ k_max_strlist)
unfolding expand
expand_ok node_size l pos small v few = elim (Bool-cases (length l.nodes == l.alloc_len)) [
  | inr room ↦ rw room (l, refl, (refl, ground (arith, v.within), v.small))
  | inl full ↦
      let e : length l.nodes ≡ l.alloc_len = (==_iff _ _).0 full in
      rw full (elim (Bool-cases (l.alloc_len == 0)) [
        | inl fresh ↦
            rw (fresh, allocate_ok node_size 32 l pos small (omega arith) (omega arith))
              (
                record l { alloc_len = 32 },
                refl,
                (refl, omega (arith, (==_iff l.alloc_len 0).0 fresh), omega arith),
              )
        | inr old ↦
            let twice : l.alloc_len * 2 % u32_mod ≡ l.alloc_len * 2 = omega arith in
            let some_nodes : 0 < l.alloc_len = ground arith in
            rw
              (
                old,
                twice,
                le→ltb k_max_strlist (l.alloc_len * 2) (omega arith),
                allocate_ok node_size (l.alloc_len * 2) l pos small (omega arith) (omega arith),
              )
              (record l { alloc_len = l.alloc_len * 2 }, refl, (refl, omega arith, omega arith))
      ])
]

-- Adding to a valid list of fewer than five million strings, whose nodes take at most 200 bytes each,
-- ends in a valid list with the new node behind the old ones.
pub str_list_add_lem :
    (node_size : ℕ) (l : StrList) (p_str : Bytes) (key : Option Bytes)
    → 0 < node_size
    → node_size ≤ 200
    → IsValid l
    → length l.nodes < 5000000
    → Returns
        (str_list_add node_size l p_str key)
        λ m. IsValid m × (m.nodes ≡ l.nodes ++ new_node p_str key ∷ [])
unfolding str_list_add
str_list_add_lem node_size l p_str key pos small v few =
    >>=-Returns (expand node_size l) _ (expand_ok node_size l pos small v few)
      (λ m p. grown m p.0 p.1 p.2)
  where
    grown :
        (m : StrList)
        → m.nodes ≡ l.nodes
        → length l.nodes < m.alloc_len
        → m.alloc_len ≤ k_max_strlist
        → Returns
            (if ltb m.alloc_len (length m.nodes + 1)
              then fault Fault.bounds
              else ok (record m { nodes = m.nodes ++ new_node p_str key ∷ [] }))
            λ m. IsValid m × (m.nodes ≡ l.nodes ++ new_node p_str key ∷ [])
    grown m same room within =
        rw (same, le→ltb m.alloc_len (length l.nodes + 1) (omega arith))
          (
            record m { nodes = l.nodes ++ new_node p_str key ∷ [] },
            refl,
            (
              record {
                within = omega (arith, length-append l.nodes (new_node p_str key ∷ []));
                small = within;
              },
              refl,
            ),
          )

-- `str_list_contains_str` answers whether a node has the string.
abbrev pub HasStr : Bytes → List Node → Type 0
HasStr p_str [] = ⊥
HasStr p_str (n ∷ nodes) = (p_str ≡ n.str) ⊎ HasStr p_str nodes

pub str_list_contains_str_lem :
    (nodes : List Node) (p_str : Bytes)
    → (str_list_contains_str nodes p_str ≡ true) ↔ HasStr p_str nodes
unfolding str_list_contains_str
str_list_contains_str_lem [] p_str = ((λ e. cc), λ m. absurd m)
str_list_contains_str_lem (n ∷ nodes) p_str = elim (Bool-cases (str_equal p_str n.str)) [
  | inl same ↦ rw same ((λ _. inl ((str_equal_iff p_str n.str).0 same)), λ _. refl)
  | inr other ↦
      let (there, back) = str_list_contains_str_lem nodes p_str in
      rw other (
        (λ e. inr (there e)),
        elim [
          | inl e ↦ absurd (false≢true (sym other ∙ (str_equal_iff p_str n.str).1 e))
          | inr m ↦ back m
        ],
      )
]

contains-append :
    (ns : List Node) (n : Node) (other : Bytes)
    → str_list_contains_str (ns ++ n ∷ []) other
      ≡ (str_list_contains_str ns other || str_equal other n.str)
unfolding str_list_contains_str
contains-append [] n other = elim (Bool-cases (str_equal other n.str)) [
  | inl e ↦ rw e refl
  | inr e ↦ rw e refl
]
contains-append (m ∷ ns) n other = elim (Bool-cases (str_equal other m.str)) [
  | inl e ↦ rw e refl
  | inr e ↦ rw e (contains-append ns n other)
]

new_node-str : (p_str : Bytes) (key : Option Bytes) → (new_node p_str key).str ≡ p_str
new_node-str p_str none = refl
new_node-str p_str (some k) = refl

-- After adding a string to a valid list of fewer than five million nodes, of at most 200 bytes
-- each, a lookup finds that string and every string that it found before, and no other.
pub contains_added :
    (node_size : ℕ) (l : StrList) (p_str other : Bytes) (key : Option Bytes)
    → 0 < node_size
    → node_size ≤ 200
    → IsValid l
    → length l.nodes < 5000000
    → Returns (str_list_add node_size l p_str key) λ m.
      str_list_contains_str m.nodes other
      ≡ (str_list_contains_str l.nodes other || str_equal other p_str)
contains_added node_size l p_str other key pos small v few =
    let (m, run, (w, e)) = str_list_add_lem node_size l p_str key pos small v few in
    (
      m,
      run,
      rw e (contains-append l.nodes (new_node p_str key) other ∙ rw (new_node-str p_str key) refl),
    )
