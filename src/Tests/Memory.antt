-- ===== src/Tests/Memory.antt =====
-- secbuf.c and strlist.c.
use checkedc_vsftpd.Base.{◌+◌, ◌≤◌, ◌≡◌, arith, ◌||◌, none, [], ◌∷◌, ◌++◌}
use checkedc_vsftpd.Run.{Returns}
use checkedc_vsftpd.Text.{str_equal}
use checkedc_vsftpd.Strlist.{StrList, new_node, str_list_add, str_list_contains_str}
use checkedc_vsftpd.Strlist.Add.{IsValid, str_list_add_lem, contains_added}
use checkedc_vsftpd.Secbuf.{vsf_secbuf_alloc, vsf_secbuf_free, secbuf_layout}

secbuf_layout_example :
    (4096 ≤ (vsf_secbuf_alloc 4096 5000).map_offset)
    × ((vsf_secbuf_alloc 4096 5000).map_offset + 5000
        ≡ (vsf_secbuf_alloc 4096 5000).no_access_start)
    × ((vsf_secbuf_alloc 4096 5000).no_access_start + 4096 ≡ (vsf_secbuf_alloc 4096 5000).round_up)
    × (vsf_secbuf_free (vsf_secbuf_alloc 4096 5000) 5000 + 4096
        ≡ (vsf_secbuf_alloc 4096 5000).round_up)
secbuf_layout_example = secbuf_layout 4096 5000 (omega arith) (omega arith)

abbrev one : StrList
one = record { alloc_len = 32; nodes = record { str = b'a' ∷ []; sort_key_str = [] } ∷ [] }

one-IsValid : IsValid one
one-IsValid = record { within = omega arith; small = omega arith }

str_list_add_lem_test :
    Returns
      (str_list_add 32 one (b'b' ∷ []) none)
      λ m. IsValid m × (m.nodes ≡ one.nodes ++ new_node (b'b' ∷ []) none ∷ [])
str_list_add_lem_test =
    str_list_add_lem 32 one (b'b' ∷ []) none (omega arith) (omega arith) one-IsValid (omega arith)

contains_added_example : Returns (str_list_add 32 one (b'b' ∷ []) none) λ m.
    str_list_contains_str m.nodes (b'a' ∷ [])
    ≡ (str_list_contains_str one.nodes (b'a' ∷ []) || str_equal (b'a' ∷ []) (b'b' ∷ []))
contains_added_example =
    contains_added 32 one (b'b' ∷ []) (b'a' ∷ []) none (omega arith) (omega arith) one-IsValid
      (omega arith)
