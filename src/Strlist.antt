-- ===== src/Strlist.antt =====
-- strlist.c: growing lists of strings. The strings of a list are valid, so a node is its two
-- contents; `node_size` is the size of a node in memory. Sorting is a call of qsort.
pub mod Add
use checkedc_vsftpd.Base.{
  ℕ, zero, suc, ◌+◌, ◌*◌, ◌%◌, Bool, true, false, Option, none, some, List, [], ◌∷◌, ◌++◌, ltb, leb,
  ◌==◌, ◌||◌, if◌then◌else◌, Bytes, length, get_elem?,
}
use checkedc_vsftpd.Run.{Run, Fault, ok, fault, ◌>>=◌}
use checkedc_vsftpd.Str.{u32_mod, int_max}
use checkedc_vsftpd.Text.{str_equal, str_strcmp, str_isempty}

abbrev pub k_max_strlist : ℕ
k_max_strlist = 10 * 1000 * 1000

pub record Node : Type 0 where
  pub str : Bytes
  pub sort_key_str : Bytes

-- `list_len` is the length of `nodes`; what lies behind it up to `alloc_len` is not written yet.
pub record StrList : Type 0 where
  pub alloc_len : ℕ
  pub nodes : List Node

abbrev pub init_strlist : StrList
init_strlist = record { alloc_len = 0; nodes = [] }

unfoldable pub str_list_free : StrList → StrList
str_list_free l = init_strlist

unfoldable pub str_list_get_length : StrList → ℕ
str_list_get_length l = length l.nodes

unfoldable pub str_list_contains_str : List Node → Bytes → Bool
str_list_contains_str [] p_str = false
str_list_contains_str (n ∷ nodes) p_str =
    if str_equal p_str n.str then true else str_list_contains_str nodes p_str

-- The allocation of `count` nodes, whose size in bytes is a 32-bit product.
unfoldable pub allocate : ℕ → ℕ → StrList → Run StrList
allocate node_size count l =
    let size = count * node_size % u32_mod in
    if size == 0 || ltb int_max size then fault Fault.bug else ok (record l { alloc_len = count })

unfoldable pub expand : ℕ → StrList → Run StrList
expand node_size l =
    if length l.nodes == l.alloc_len
    then if l.alloc_len == 0
      then allocate node_size 32 l
      else if ltb k_max_strlist (l.alloc_len * 2 % u32_mod)
      then fault Fault.die
      else allocate node_size (l.alloc_len * 2 % u32_mod) l
    else ok l

-- The string and the key of a new node, which is empty where none is given.
abbrev pub new_node : Bytes → Option Bytes → Node
new_node p_str none = record { str = p_str; sort_key_str = [] }
new_node p_str (some key) = record { str = p_str; sort_key_str = key }

-- The cast of `p_nodes` to one node more than the list has, and the new node.
unfoldable pub str_list_add : ℕ → StrList → Bytes → Option Bytes → Run StrList
str_list_add node_size l p_str p_sort_key_str = expand node_size l >>= λ m.
    if ltb m.alloc_len (length m.nodes + 1)
    then fault Fault.bounds
    else ok (record m { nodes = m.nodes ++ new_node p_str p_sort_key_str ∷ [] })

unfoldable pub str_list_get_pstr : StrList → ℕ → Run Bytes
str_list_get_pstr l indexx =
    if leb (length l.nodes) indexx
    then fault Fault.bug
    else elim (get_elem? l.nodes indexx) [ none ↦ fault Fault.bounds | some n ↦ ok n.str ]
