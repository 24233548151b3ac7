-- ===== src/Ascii/Receive.antt =====
-- ascii.c, vsf_ascii_ascii_to_bin: uploads, with the checks of the declared bounds and without.
use checkedc_vsftpd.Base.{
  ℕ, zero, suc, ◌+◌, ◌-◌, ◌≤◌, ◌<◌, ◌≡◌, refl, ap, ◌∙◌, Bool, true, false, ◌⊎◌, inl, inr, none,
  some, [], ◌∷◌, arith, leb, ◌==◌, Bool-cases, Bytes, length, get_elem?, write_at, length-write_at,
}
use checkedc_vsftpd.Run.{Run, Fault, ok, fault, ◌>>=◌, Returns}
use checkedc_vsftpd.Ascii.{
  UploadState, cr, lf, read_at, write_byte, put, next_index, upload_step, upload_loop, start,
  upload_start, vsf_ascii_ascii_to_bin,
}

-- A step either stops at a bound or moves to the next index.
abbrev Moves : ℕ → Run UploadState → Type 0
Moves i (ok u) = u.indexx ≡ i + 1
Moves i (fault e) = e ≡ Fault.bounds

step-Moves :
    (checked : Bool) (in_len : ℕ) (u : UploadState) → Moves u.indexx (upload_step checked in_len u)
unfolding upload_step read_at put write_byte
step-Moves checked in_len u = ground arith

last_step :
    (in_len : ℕ) (u : UploadState)
    → in_len ≤ u.indexx + 1
    → upload_step true in_len u ≡ fault Fault.bounds
unfolding upload_step read_at
last_step in_len u h = ground arith

then_traps :
    (r : Run UploadState) (i : ℕ) (f : UploadState → Run UploadState)
    → Moves i r
    → ((u : UploadState) → u.indexx ≡ i + 1 → f u ≡ fault Fault.bounds)
    → (r >>= f) ≡ fault Fault.bounds
then_traps (ok u) i f m k = k u m
then_traps (fault e) i f m k = ap fault m

loop_traps :
    (in_len rounds : ℕ) (u : UploadState)
    → u.indexx + rounds ≡ in_len
    → 0 < rounds
    → upload_loop true in_len rounds u ≡ fault Fault.bounds
unfolding upload_loop
loop_traps in_len zero u h pos = elim pos [ ]
loop_traps in_len (suc zero) u h pos = rw (last_step in_len u (omega arith)) refl
loop_traps in_len (suc (suc n)) u h pos =
    then_traps (upload_step true in_len u) u.indexx (λ u'. upload_loop true in_len (suc n) u')
      (step-Moves true in_len u) (λ u' m. loop_traps in_len (suc n) u' (omega arith) (omega arith))

-- With the bounds that the function declares, an upload in ASCII mode stops the server at the
-- first chunk that is not empty or that follows a carriage return, whatever the bytes are.
pub ascii_to_bin_traps :
    (buf : Bytes) (in_len : ℕ) (prev_cr : Bool)
    → (0 < in_len) ⊎ (prev_cr ≡ true)
    → vsf_ascii_ascii_to_bin true buf in_len prev_cr ≡ fault Fault.bounds
unfolding vsf_ascii_ascii_to_bin upload_start write_byte
ascii_to_bin_traps buf in_len true h = ground arith
ascii_to_bin_traps buf in_len false (inr e) = cc
ascii_to_bin_traps buf in_len false (inl pos) =
    loop_traps in_len in_len (start buf (some 1)) (omega arith) pos

read_inside :
    (lo hi : ℕ) (buf : Bytes) (i : ℕ)
    → i < length buf
    → (c : ℕ) × (read_at false lo hi buf i ≡ ok c)
unfolding read_at
read_inside lo hi buf i h = go buf i h
  where
    go :
        (b : Bytes) (i : ℕ)
        → i < length b
        → (c : ℕ) × (elim (get_elem? b i) as (λ _. Run ℕ) [
          | none ↦ fault Fault.bounds
          | some c ↦ ok c
        ]
            ≡ ok c)
    go [] i h = elim h [ ]
    go (x ∷ b) zero h = (x, refl)
    go (x ∷ b) (suc i) h = go b i (omega arith)

-- What the loop keeps without the checks, in an array of `n` bytes.
record Behind (n : ℕ) (u : UploadState) : Type 0 where
  size : length u.buf ≡ n
  at : u.p_out ≡ some (u.written + 1)
  behind : u.written ≤ u.indexx

put-Behind :
    {n : ℕ} (in_len : ℕ) (u : UploadState) (c : ℕ)
    → Behind n u
    → u.indexx + 1 < n
    → Returns
        (put false in_len u c >>= (λ u'. ok (next_index u')))
        λ u'. Behind n u' × (u'.indexx ≡ u.indexx + 1)
unfolding put write_byte
put-Behind {n} in_len u c b room =
    let buf' = write_at u.buf (u.written + 1) (c ∷ []) in
    let inside : leb (length u.buf) (u.written + 1) ≡ false =
      not_leb (length u.buf) (u.written + 1) (omega (arith, b.size, b.behind)) in
    rw (b.at, inside)
      (
        record u {
          buf = buf';
          p_out = some (u.written + 1 + 1);
          written = u.written + 1;
          indexx = u.indexx + 1;
        },
        refl,
        (
          record {
            size = length-write_at u.buf (u.written + 1) (c ∷ []) ∙ b.size;
            at = refl;
            behind = omega (arith, b.behind);
          },
          refl,
        ),
      )
  where
    not_leb : (a c : ℕ) → c < a → leb a c ≡ false
    not_leb a c h = ground arith

skip-Behind :
    {n : ℕ} (u : UploadState) (flag : Bool)
    → Behind n u
    → Returns
        (ok (next_index (record u { last_was_cr = flag })))
        λ u'. Behind n u' × (u'.indexx ≡ u.indexx + 1)
skip-Behind u flag b = (
  next_index (record u { last_was_cr = flag }),
  refl,
  (record { size = b.size; at = b.at; behind = omega (arith, b.behind) }, refl),
)

step-Behind :
    {n : ℕ} (in_len : ℕ) (u : UploadState)
    → Behind n u
    → u.indexx < in_len
    → in_len + 1 ≤ n
    → Returns (upload_step false in_len u) λ u'. Behind n u' × (u'.indexx ≡ u.indexx + 1)
unfolding upload_step
step-Behind {n} in_len u b h room =
    let (c, run) = read_inside 0 in_len u.buf (u.indexx + 1) (omega (arith, b.size)) in
    rw run (elim (Bool-cases (c == cr)) [
      | inr plain ↦ rw plain (put-Behind in_len u c b (omega arith))
      | inl return ↦ rw return (elim (Bool-cases (u.indexx == in_len - 1)) [
        | inl end ↦ rw end (skip-Behind u true b)
        | inr more ↦
            let (d, run') =
              read_inside 0 in_len u.buf (u.indexx + 2) (omega (arith, b.size, not_last more)) in
            rw (more, run')
              (elim (Bool-cases (d == lf)) [
                | inr other ↦ rw other (put-Behind in_len u c b (omega arith))
                | inl pair ↦ rw pair (skip-Behind u u.last_was_cr b)
              ])
      ])
    ])
  where
    not_last : (u.indexx == in_len - 1) ≡ false → u.indexx + 1 < in_len
    not_last e = ground arith

loop-Behind :
    {n : ℕ} (in_len rounds : ℕ) (u : UploadState)
    → Behind n u
    → u.indexx + rounds ≡ in_len
    → in_len + 1 ≤ n
    → Returns (upload_loop false in_len rounds u) (Behind n)
unfolding upload_loop
loop-Behind in_len zero u b h room = (u, refl, b)
loop-Behind in_len (suc rounds) u b h room =
    let (u', run, (b', on)) = step-Behind in_len u b (omega arith) room in
    rw run (loop-Behind in_len rounds u' b' (omega arith) room)

-- Without the checks, and with no carriage return pending, the conversion of an array of
-- `in_len + 1` bytes ends, and the address that it returns lies behind the bytes that it stored
-- from index 1 on, instead of at their start.
pub ascii_to_bin_returns_end :
    (buf : Bytes) (in_len : ℕ)
    → in_len + 1 ≤ length buf
    → Returns (vsf_ascii_ascii_to_bin false buf in_len false) λ u. u.p_out ≡ some (u.written + 1)
unfolding vsf_ascii_ascii_to_bin upload_start
ascii_to_bin_returns_end buf in_len room =
    let (u, run, b) =
      loop-Behind {n = length buf} in_len in_len (start buf (some 1))
        (record { size = refl; at = refl; behind = omega arith }) (omega arith) room in
    (u, run, b.at)
