-- ===== src/Netstr.antt =====
-- netstr.c, str_netfd_alloc, with str_alloc_alt_term of str.c: reading up to a terminator.
pub mod Line
use checkedc_vsftpd.Base.{
  ℕ, zero, suc, ◌+◌, ◌-◌, ◌≤◌, ◌<◌, ◌≡◌, Bool, true, false, Option, none, some, List, [], ◌∷◌, ◌++◌,
  ltb, ◌==◌, if◌then◌else◌, Bytes, length, take, drop, get_elem?,
}
use checkedc_vsftpd.Run.{Run, Fault, ok, fault, ◌>>=◌, map_run}

-- What the peek and read functions return for a length, where `stream` is all that the peer still
-- sends; `none` is an error. Within one call no two lengths of a peek are the same, so the answers
-- cut the stream in any way.
pub record Socket : Type 0 where
  pub peek : Bytes → ℕ → Option ℕ
  pub read : Bytes → ℕ → Option ℕ

-- A connection without errors: a peek returns 0 at the end only, and what was seen can be read.
pub record IsStream (k : Socket) : Type 0 where
  pub peek_some :
      (stream : Bytes) (len : ℕ)
      → (n : ℕ) × (k.peek stream len ≡ some n)
        × (n ≤ len)
        × (n ≤ length stream)
        × (0 < len → 0 < length stream → 0 < n)
  pub read_all : (stream : Bytes) (len : ℕ) → len ≤ length stream → k.read stream len ≡ some len

-- The return values -1, 0 and the length of the last chunk, each with what is left on the
-- stream, and the string.
pub data Netread : Type 0 where
  too_long closed : Bytes → Netread
  line : ℕ → Bytes → Bytes → Netread

-- The search for the terminator; `len` cannot wrap, since a search that leaves the array faults.
unfoldable pub str_alloc_alt_term : Bytes → ℕ → Run Bytes
str_alloc_alt_term [] term = fault Fault.bounds
str_alloc_alt_term (c ∷ src) term =
    let rest = str_alloc_alt_term src term in if c == term then ok [] else map_run (◌∷◌ c) rest

abbrev pub next_found : Option ℕ → Option ℕ
next_found none = none
next_found (some i) = some (i + 1)

-- The `for` loop: `i` after the terminator, counted from the start of the chunk.
unfoldable pub find_term : ℕ → Bytes → Option ℕ
find_term term [] = none
find_term term (c ∷ chunk) =
    let rest = find_term term chunk in if c == term then some 1 else next_found rest

abbrev pub is_byte : ℕ → Option ℕ → Bool
is_byte term none = false
is_byte term (some c) = c == term

-- `retval` of a read must be the length asked for.
abbrev pub consumed {ℓ} : {T : Type ℓ} → Option ℕ → ℕ → Run T → Run T
consumed none i next = fault Fault.die
consumed (some retval) i next = if retval == i then next else fault Fault.die

-- The terminator is in sight: the chunk is read up to it, and the string is cut out of what the
-- buffer holds.
unfoldable pub deliver : Socket → ℕ → Bytes → Bytes → ℕ → Run Netread
unfolding str_alloc_alt_term
deliver k term buf stream i =
    let cut : Run Netread =
      str_alloc_alt_term (buf ++ take i stream) term >>= (λ s. ok (line i s (drop i stream))) in
    consumed (k.read stream i) i
      (if is_byte term (get_elem? (take i stream) (i - 1)) then cut else fault Fault.die)

-- The `while (1)`, on fuel: `buf` is what lies before `p_readpos`, so the accounting test at the
-- head of the loop holds by construction.
unfoldable pub netfd_loop : Socket → ℕ → ℕ → ℕ → Bytes → Bytes → Run (Option Netread)
netfd_loop k term zero left buf stream = ok none
netfd_loop k term (suc fuel) zero buf stream = ok (some (too_long stream))
netfd_loop k term (suc fuel) (suc l) buf stream = elim (k.peek stream (suc l)) [
  | none ↦ fault Fault.die
  | some zero ↦ ok (some (closed stream))
  | some (suc m) ↦ elim (find_term term (take (suc m) stream)) [
    | some i ↦ map_run some (deliver k term buf stream i)
    | none ↦
        let rest : Run (Option Netread) =
          netfd_loop k term fuel (suc l - suc m) (buf ++ take (suc m) stream)
            (drop (suc m) stream) in
        if ltb (suc l) (suc m)
        then fault Fault.bug
        else consumed (k.read stream (suc m)) (suc m) rest
  ]
]

unfoldable pub str_netfd_alloc : Socket → ℕ → ℕ → Bytes → Run (Option Netread)
str_netfd_alloc k term maxlen stream = netfd_loop k term (maxlen + 1) maxlen [] stream
