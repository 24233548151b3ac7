-- ===== src/Str/Cut.antt =====
-- str.c, the functions that take strings apart: splitting, left, right, middle and lines.
use mathlib.Core.Bool.{false≢true}
use checkedc_vsftpd.Base.{
  ℕ, zero, suc, ◌+◌, ◌-◌, ◌≤◌, ◌<◌, ◌≡◌, ◌≢◌, refl, sym, ◌∙◌, subst, inl, inr, Bool, true, false,
  not, [], ◌∷◌, arith, ltb, leb, ◌==◌, if◌then◌else◌, Bool-cases, le→ltb, Bytes, length, take, drop,
  length-take, length-drop, take_all, Option, some, none, get_elem?,
}
use checkedc_vsftpd.Run.{Run, Fault, ok, fault, Returns, ◌>>=◌}
use checkedc_vsftpd.Str.{
  Mystr, view, add32, sub32, private_str_alloc_memchunk, str_trunc, str_empty, str_getbuf,
}
use checkedc_vsftpd.Str.Valid.{IsValid, Yields, Owns}
use checkedc_vsftpd.Str.Alloc.{Fits, add32_small, alloc_memchunk-Yields}
use checkedc_vsftpd.Str.Grow.{length-view, str_getbuf-Yields, str_trunc-Yields, str_empty-Yields}
use checkedc_vsftpd.Text.{LocateResult, str_locate_text, str_locate_text_reverse}
use checkedc_vsftpd.Text.Find.{str_locate_text-room}
use checkedc_vsftpd.Text.Lines
use checkedc_vsftpd.Text.Lines.{line_end}
use checkedc_vsftpd.Text.Split.{split_at, str_split_text}

-- `p_src` and `p_rhs` afterwards. A `locate` result says where the text was found.
unfoldable pub split_common : ℕ → LocateResult → Mystr → Mystr → Bytes → Run (Mystr × Mystr)
split_common junk r p_src p_rhs p_text =
    if not r.found
    then str_empty junk p_rhs >>= (λ rhs. ok (p_src, rhs))
    else if ltb p_src.len (add32 r.index (length p_text))
    then fault Fault.bug
    else do
      rhs ←
          private_str_alloc_memchunk junk p_rhs (
            take (p_src.len - r.index - length p_text)
              (drop (r.index + length p_text) (view p_src)))
      lhs ← str_trunc p_src r.index
      ok (lhs, rhs)

unfoldable pub str_split_text_common : ℕ → Bool → Mystr → Mystr → Bytes → Run (Mystr × Mystr)
str_split_text_common junk is_reverse p_src p_rhs p_text =
    let r =
      if is_reverse
      then str_locate_text_reverse (view p_src) p_text
      else str_locate_text (view p_src) p_text in
    split_common junk r p_src p_rhs p_text

-- The middle of a string of `n` bytes from `i`, as the `_Dynamic_bounds_cast` allows it.
unfoldable pub str_left : ℕ → Mystr → Mystr → ℕ → Run Mystr
str_left junk s out chars =
    if ltb s.len chars
    then fault Fault.bug
    else private_str_alloc_memchunk junk out (take chars (view s))

unfoldable pub str_right : ℕ → Mystr → Mystr → ℕ → Run Mystr
str_right junk s out chars =
    let i = sub32 s.len chars in
    if ltb s.len chars
    then fault Fault.bug
    else private_str_alloc_memchunk junk out (take chars (drop i (view s)))

unfoldable pub str_mid_to_end : ℕ → Mystr → Mystr → ℕ → Run Mystr
str_mid_to_end junk s out i =
    if ltb s.len i
    then fault Fault.bug
    else private_str_alloc_memchunk junk out (take (s.len - i) (drop i (view s)))

unfoldable pub str_get_char_at : Mystr → ℕ → Run ℕ
str_get_char_at s i =
    if leb s.len i
    then fault Fault.bug
    else elim (get_elem? (view s) i) [ none ↦ fault Fault.bounds | some c ↦ ok c ]

-- Both strings hold the parts that `p` names.
abbrev pub YieldsBoth : Run (Mystr × Mystr) → Bytes × Bytes → Type 0
YieldsBoth r p = Returns r λ q.
    (IsValid q.0 × (view q.0 ≡ p.0) × (q.0.len ≡ length p.0))
    × (IsValid q.1 × (view q.1 ≡ p.1) × (q.1.len ≡ length p.1))

take_rest : (n : ℕ) (s : Bytes) → length s ≡ n → take n s ≡ s
take_rest n s e = rw (← e) (take_all s)

len-lt-alloc : (s : Mystr) → IsValid s → 0 < s.len → s.len < s.alloc_bytes
len-lt-alloc s v h = go s.p_buf v
  where
    go : (o : Option Bytes) → Owns o s.len s.alloc_bytes → s.len < s.alloc_bytes
    go none (z, _) = absurd (omega arith)
    go (some b) (_, within, _, _) = within

split_common-Yields :
    (junk : ℕ) (r : LocateResult) (p_src p_rhs : Mystr) (t : Bytes)
    → IsValid p_src
    → IsValid p_rhs
    → Fits p_src.len
    → ((r.found ≡ true) → (r.index + length t ≤ p_src.len) × (length t ≢ 0))
    → YieldsBoth (split_common junk r p_src p_rhs t) (split_at r (view p_src) t)
unfolding split_common split_at
split_common-Yields junk r p_src p_rhs t v w fit inside = elim (Bool-cases r.found) [
  | inl e ↦
      let (within, some_text) = inside e in
      let size : length (drop (r.index + length t) (view p_src)) ≡ p_src.len - r.index - length t =
        omega (arith, length-drop (r.index + length t) (view p_src), length-view p_src v) in
      let (rhs, run, (valid, same, long, room)) =
        alloc_memchunk-Yields junk p_rhs (drop (r.index + length t) (view p_src)) w
          (omega (arith, size)) in
      let (lhs, run', (valid', same', long', room')) =
        str_trunc-Yields p_src r.index v (omega (arith, len-lt-alloc p_src v (omega arith)))
          (omega arith) in
      rw
        (
          e,
          add32_small r.index (length t) (omega arith),
          le→ltb p_src.len (r.index + length t) within,
          take_rest _ _ size,
          run,
          run',
        )
        ((lhs, rhs), refl, ((valid', same', long'), (valid, same, long)))
  | inr e ↦
      let (rhs, run, (valid, same, long, room)) = str_empty-Yields junk p_rhs w in
      rw (e, run) ((p_src, rhs), refl, ((v, refl, sym (length-view p_src v)), (valid, same, long)))
]

nonempty_text : (s t : Bytes) → (str_locate_text s t).found ≡ true → length t ≢ 0
nonempty_text s t e z = absurd (false≢true (unfold str_locate_text in rw z at e))

-- `str_split_text` on valid buffers, of a length that memory allows, leaves in both strings what
-- the splitting of the contents gives, and both valid, whatever `p_rhs` held.
pub str_split_text-Yields :
    (junk : ℕ) (p_src p_rhs : Mystr) (t : Bytes)
    → IsValid p_src
    → IsValid p_rhs
    → Fits p_src.len
    → YieldsBoth (str_split_text_common junk false p_src p_rhs t) (str_split_text (view p_src) t)
unfolding str_split_text_common str_split_text
str_split_text-Yields junk p_src p_rhs t v w fit =
    split_common-Yields junk (str_locate_text (view p_src) t) p_src p_rhs t v w fit (λ e. (
      omega (arith, str_locate_text-room (view p_src) t e, length-view p_src v),
      nonempty_text (view p_src) t e,
    ))

-- Cutting out `n` bytes of a string that has them: `str_left` copies the first, `str_right` the
-- last, and `str_mid_to_end` those behind index `n`.
pub parts-Yield :
    (junk : ℕ) (s out : Mystr) (n : ℕ)
    → IsValid s
    → IsValid out
    → Fits s.len
    → n ≤ s.len
    → Yields (str_left junk s out n) (take n (view s))
      × Yields (str_right junk s out n) (drop (s.len - n) (view s))
      × Yields (str_mid_to_end junk s out n) (drop n (view s))
unfolding str_left str_right str_mid_to_end
parts-Yield junk s out n v w fit h =
    let size = length-view s v in
    let back : sub32 s.len n ≡ s.len - n = omega arith in
    rw (le→ltb s.len n h, back)
      (
        alloc_memchunk-Yields junk out (take n (view s)) w
            (omega (arith, length-take n (view s) (omega arith))),
        rw
            (take_rest n (drop (s.len - n) (view s))
              (omega (arith, length-drop (s.len - n) (view s))))
            (alloc_memchunk-Yields junk out (drop (s.len - n) (view s)) w
              (omega (arith, length-drop (s.len - n) (view s)))),
        rw (take_rest (s.len - n) (drop n (view s)) (omega (arith, length-drop n (view s)))) (
            alloc_memchunk-Yields junk out (drop n (view s)) w
              (omega (arith, length-drop n (view s)))),
      )

-- The part of `str_getline` behind `str_empty`.
unfoldable pub take_line : ℕ → Mystr → Mystr → ℕ → Run (Bool × Mystr × Mystr × ℕ)
take_line junk s line pos =
    if pos == s.len
    then ok (false, s, line, pos)
    else let curr_pos = line_end pos (drop pos (view s)) in
      let next = if ltb curr_pos s.len then curr_pos + 1 else curr_pos in
      private_str_alloc_memchunk junk line (take (curr_pos - pos) (drop pos (view s))) >>= λ out.
      ok (true, s, out, next)

-- `str_getline` on the buffers: the return value, the string read (its buffer is there now), the
-- line and the position.
unfoldable pub str_getline : ℕ → Mystr → Mystr → ℕ → Run (Bool × Mystr × Mystr × ℕ)
str_getline junk s line pos = str_getbuf junk s >>= λ s'.
    if ltb s.len pos
    then fault Fault.bug
    else str_empty junk line >>= λ line'. take_line junk s' line' pos

-- What the call leaves, against the same call on the content.
abbrev pub LineRead : Bytes → Option (Bytes × ℕ) → Bool × Mystr × Mystr × ℕ → Type 0
LineRead bs none q = IsValid q.1 × (view q.1 ≡ bs) × IsValid q.2 × (q.0 ≡ false) × (view q.2 ≡ [])
LineRead bs (some (line, next)) q =
    IsValid q.1 × (view q.1 ≡ bs) × IsValid q.2 × (q.0 ≡ true) × (view q.2 ≡ line) × (q.3 ≡ next)

take_line-Read :
    (junk : ℕ) (s line : Mystr) (pos : ℕ)
    → IsValid s
    → IsValid line
    → view line ≡ []
    → Fits s.len
    → pos ≤ s.len
    → (r : Option (Bytes × ℕ)) × (Lines.str_getline (view s) pos ≡ ok r)
      × Returns (take_line junk s line pos) (LineRead (view s) r)
unfolding take_line Lines.str_getline
take_line-Read junk s line pos v w empty fit h =
    rw (length-view s v, le→ltb s.len pos h)
      (elim (Bool-cases (pos == s.len)) [
        | inl done ↦ rw done (none, refl, ((false, s, line, pos), refl, (v, refl, w, refl, empty)))
        | inr more ↦
            let n = line_end pos (drop pos (view s)) - pos in
            let (out, run, (w', same, size, room)) =
              alloc_memchunk-Yields junk line (take n (drop pos (view s))) w (
                omega (
                  arith,
                  length-take-le n (drop pos (view s)),
                  length-drop pos (view s),
                  length-view s v,
                )) in
            rw (more, run)
              (some (_, _), refl, ((true, s, out, _), refl, (v, refl, w', refl, same, refl)))
      ])
  where
    length-take-le : (n : ℕ) (s : Bytes) → length (take n s) ≤ length s
    length-take-le zero s = omega arith
    length-take-le (suc n) [] = omega arith
    length-take-le (suc n) (x ∷ s) = omega (arith, length-take-le n s)

-- On valid buffers, and a position up to the length, `str_getline` reads the line that it reads
-- on the contents, and leaves the string that it reads from as it was.
pub str_getline-Read :
    (junk : ℕ) (s line : Mystr) (pos : ℕ)
    → IsValid s
    → IsValid line
    → Fits s.len
    → pos ≤ s.len
    → (r : Option (Bytes × ℕ)) × (Lines.str_getline (view s) pos ≡ ok r)
      × Returns (str_getline junk s line pos) (LineRead (view s) r)
unfolding str_getline
str_getline-Read junk s line pos v w fit h =
    let (s', run, (v', same, size, room)) = str_getbuf-Yields junk s v in
    let (line', run', (w', same', size', room')) = str_empty-Yields junk line w in
    let n : s'.len ≡ s.len = size ∙ length-view s v in
    let (r, read, left) =
      take_line-Read junk s' line' pos v' w' same' (omega arith) (omega arith) in
    (
      r,
      (rw same at read),
      rw (run, le→ltb s.len pos h, run')
          (subst (λ c. Returns (take_line junk s' line' pos) (LineRead c r)) same left),
    )
