-- ===== src/Netstr/Line.antt =====
-- netstr.c, str_netfd_alloc: what it returns and what it leaves on the stream.
use mathlib.Core.List.{append_assoc}
use checkedc_vsftpd.Base.{
  ℕ, zero, suc, ◌+◌, ◌-◌, ◌≤◌, ◌<◌, ◌≡◌, refl, sym, ap, ◌∙◌, inl, inr, ◌⊎◌, true, false, none, some,
  [], ◌∷◌, ◌++◌, arith, leb, ◌==◌, if◌then◌else◌, le→ltb, le→leb, Bool-cases, Bytes, length, take,
  drop, get_elem?, length-drop, drop-drop, take-append-drop,
}
use checkedc_vsftpd.Run.{ok}
use checkedc_vsftpd.Text.Split.{before, after, has_byte}
use checkedc_vsftpd.Netstr.{
  Socket, IsStream, Netread, too_long, closed, line, str_alloc_alt_term, find_term, is_byte,
  deliver, netfd_loop, str_netfd_alloc,
}

-- What a read of at most `left` bytes finds, behind the bytes `buf` and in front of `stream`.
abbrev pub outcome : ℕ → ℕ → Bytes → Bytes → ℕ → Netread
outcome term left buf stream i =
    if has_byte term (take left stream)
    then line i (buf ++ before term stream) (after term stream)
    else if leb left (length stream)
    then too_long (drop left stream)
    else closed []

alt_term_lem :
    (s : Bytes) (term : ℕ) → has_byte term s ≡ true → str_alloc_alt_term s term ≡ ok (before term s)
unfolding str_alloc_alt_term
alt_term_lem [] term h = cc
alt_term_lem (c ∷ s) term h = elim (Bool-cases (c == term)) [
  | inl e ↦ rw e refl
  | inr e ↦ rw (e, alt_term_lem s term (rw e at h)) refl
]

find_term_lem :
    (term : ℕ) (s : Bytes)
    → find_term term s ≡ (if has_byte term s then some (suc (length (before term s))) else none)
unfolding find_term
find_term_lem term [] = refl
find_term_lem term (c ∷ s) = ground (arith, find_term_lem term s)

-- A terminator in the first `n` bytes is the first one of all.
before-take :
    (term n : ℕ) (s : Bytes)
    → has_byte term (take n s) ≡ true
    → (has_byte term s ≡ true)
      × (before term (take n s) ≡ before term s)
      × (suc (length (before term s)) ≤ n)
      × (suc (length (before term s)) ≤ length s)
before-take term zero s h = cc
before-take term (suc n) [] h = cc
before-take term (suc n) (c ∷ s) h = elim (Bool-cases (c == term)) [
  | inl e ↦ rw e (refl, refl, omega arith, omega arith)
  | inr e ↦
      let (there, same, low, high) = before-take term n s (rw e at h) in
      rw e (there, ap (◌∷◌ c) same, omega arith, omega arith)
]

-- What a read up to the terminator takes and leaves.
take-before :
    (term : ℕ) (s : Bytes)
    → has_byte term s ≡ true
    → (has_byte term (take (suc (length (before term s))) s) ≡ true)
      × (before term (take (suc (length (before term s))) s) ≡ before term s)
      × (is_byte term (get_elem? (take (suc (length (before term s))) s) (length (before term s)))
          ≡ true)
      × (drop (suc (length (before term s))) s ≡ after term s)
take-before term [] h = cc
take-before term (c ∷ s) h = elim (Bool-cases (c == term)) [
  | inl e ↦ rw e (refl, refl, e, refl)
  | inr e ↦
      let (there, same, last, left) = take-before term s (rw e at h) in
      rw e (there, ap (◌∷◌ c) same, last, left)
]

absent_lem :
    (term : ℕ) (xs ys : Bytes)
    → has_byte term xs ≡ false
    → (has_byte term (xs ++ ys) ≡ has_byte term ys)
      × (before term (xs ++ ys) ≡ xs ++ before term ys)
      × (after term (xs ++ ys) ≡ after term ys)
absent_lem term [] ys h = (refl, refl, refl)
absent_lem term (x ∷ xs) ys h = ground (arith, absent_lem term xs ys)

take_more :
    (term n k : ℕ) (s : Bytes)
    → n ≤ k
    → has_byte term (take n s) ≡ true
    → has_byte term (take k s) ≡ true
take_more term zero k s h e = cc
take_more term (suc n) zero s h e = elim h [ ]
take_more term (suc n) (suc k) [] h e = e
take_more term (suc n) (suc k) (c ∷ s) h e = elim (Bool-cases (c == term)) [
  | inl x ↦ rw x refl
  | inr x ↦ rw x (take_more term n k s (omega arith) (rw x at e))
]

take_add : (n k : ℕ) (s : Bytes) → take n s ++ take k (drop n s) ≡ take (n + k) s
take_add zero k s = rw (let e : 0 + k ≡ k = omega arith in e) refl
take_add (suc n) k [] = rw (let e : suc n + k ≡ suc (n + k) = omega arith in e) (take-nil k)
  where
    take-nil : (k : ℕ) → take {A = ℕ} k [] ≡ []
    take-nil zero = refl
    take-nil (suc k) = refl
take_add (suc n) k (c ∷ s) =
    rw (let e : suc n + k ≡ suc (n + k) = omega arith in e) (ap (◌∷◌ c) (take_add n k s))

deliver_lem :
    (k : Socket) (term : ℕ) (buf stream : Bytes)
    → IsStream k
    → has_byte term buf ≡ false
    → has_byte term stream ≡ true
    → suc (length (before term stream)) ≤ length stream
    → deliver k term buf stream (suc (length (before term stream)))
      ≡ ok
          (line (suc (length (before term stream))) (buf ++ before term stream) (after term stream))
unfolding deliver
deliver_lem k term buf stream conn none_yet there room =
    let i = suc (length (before term stream)) in
    let (seen, same, last, left) = take-before term stream there in
    let (on, cut, _) = absent_lem term buf (take i stream) none_yet in
    rw
      (
        conn.read_all stream i room,
        same_length i,
        let back : suc (length (before term stream)) - 1 ≡ length (before term stream) =
              omega arith in
            back,
        last,
        alt_term_lem (buf ++ take i stream) term (on ∙ seen),
        cut,
        same,
        left,
      )
      refl
  where
    same_length : (i : ℕ) → (i == i) ≡ true
    same_length i = ground arith

outcome_shift :
    (term n left : ℕ) (buf stream : Bytes) (i : ℕ)
    → n ≤ left
    → n ≤ length stream
    → has_byte term (take n stream) ≡ false
    → outcome term (left - n) (buf ++ take n stream) (drop n stream) i
      ≡ outcome term left buf stream i
outcome_shift term n left buf stream i small within absent =
    let sum : n + (left - n) ≡ left = omega arith in
    let (_, cut, rest) = absent_lem term (take n stream) (drop n stream) absent in
    let (there, _, _) = absent_lem term (take n stream) (take (left - n) (drop n stream)) absent in
    let whole = take-append-drop n stream in
    let limit : take left stream ≡ take n stream ++ take (left - n) (drop n stream) =
      ap (λ j. take j stream) (sym sum) ∙ sym (take_add n (left - n) stream) in
    let first : before term stream ≡ take n stream ++ before term (drop n stream) =
      ap (before term) (sym whole) ∙ cut in
    let last : after term stream ≡ after term (drop n stream) =
      ap (after term) (sym whole) ∙ rest in
    rw
      (
        limit,
        there,
        first,
        last,
        append_assoc buf (take n stream) (before term (drop n stream)),
        drop-drop n (left - n) stream,
        sum,
        length-drop n stream,
        leb_shift n left (length stream) small within,
      )
      refl
  where
    leb_shift : (n left m : ℕ) → n ≤ left → n ≤ m → leb (left - n) (m - n) ≡ leb left m
    leb_shift n left m h h' = ground arith

netfd_loop_lem :
    (k : Socket) (term fuel left : ℕ) (buf stream : Bytes)
    → IsStream k
    → left < fuel
    → has_byte term buf ≡ false
    → (i : ℕ) × (netfd_loop k term fuel left buf stream
        ≡ ok (some (outcome term left buf stream i)))
unfolding netfd_loop
netfd_loop_lem k term zero left buf stream conn enough none_yet = elim enough [ ]
netfd_loop_lem k term (suc fuel) zero buf stream conn enough none_yet =
    (0, rw (le→leb 0 (length stream) (omega arith)) refl)
netfd_loop_lem k term (suc fuel) (suc l) buf stream conn enough none_yet =
    let (n, seen', small', within', some_more) = conn.peek_some stream (suc l) in
    elim (number n) [
      | inl z ↦
          rw (seen', netfd_loop, z, nil_of_length stream (rw z at some_more), nothing) (0, refl)
      | inr (m, s) ↦
          let seen : k.peek stream (suc l) ≡ some (suc m) = seen' ∙ ap some s in
          let small : suc m ≤ suc l = rw s at small' in
          let within : suc m ≤ length stream = rw s at within' in
          rw (seen, netfd_loop, find_term_lem term (take (suc m) stream))
            (elim (Bool-cases (has_byte term (take (suc m) stream))) [
              | inl e ↦
                  let (there, same, _, room) = before-take term (suc m) stream e in
                  rw
                    (
                      e,
                      same,
                      deliver_lem k term buf stream conn none_yet there room,
                      take_more term (suc m) (suc l) stream small e,
                    )
                    (suc (length (before term stream)), refl)
              | inr e ↦
                  let (absent, _, _) = absent_lem term buf (take (suc m) stream) none_yet in
                  let (i, run) =
                    netfd_loop_lem k term fuel (suc l - suc m) (buf ++ take (suc m) stream)
                      (drop (suc m) stream) conn (omega arith) (absent ∙ e) in
                  rw
                    (
                      e,
                      le→ltb (suc l) (suc m) small,
                      conn.read_all stream (suc m) within,
                      same_length (suc m),
                      run,
                    )
                    (
                      i,
                      ap (λ u. ok (some u))
                          (outcome_shift term (suc m) (suc l) buf stream i small within e),
                    )
            ])
    ]
  where
    number : (n : ℕ) → (n ≡ 0) ⊎ ((m : ℕ) × (n ≡ suc m))
    number zero = inl refl
    number (suc m) = inr (m, refl)

    nothing : leb (suc l) 0 ≡ false
    nothing = ground arith

    nil_of_length : (s : Bytes) → (0 < suc l → 0 < length s → 0 < 0) → s ≡ []
    nil_of_length [] h = refl
    nil_of_length (c ∷ s) h = absurd (omega (arith, h (omega arith) (omega arith)))

    same_length : (i : ℕ) → (i == i) ≡ true
    same_length i = ground arith

-- On a connection without errors the call ends, however the bytes arrive: it returns the bytes in
-- front of the first terminator and leaves those behind it on the stream, when there is one in
-- the first `maxlen` bytes. Otherwise it takes `maxlen` bytes and returns -1, or takes fewer, all
-- that there are, and returns 0.
pub str_netfd_alloc_lem :
    (k : Socket) (term maxlen : ℕ) (stream : Bytes)
    → IsStream k
    → (i : ℕ) × (str_netfd_alloc k term maxlen stream ≡ ok (some (outcome term maxlen [] stream i)))
unfolding str_netfd_alloc
str_netfd_alloc_lem k term maxlen stream conn =
    netfd_loop_lem k term (maxlen + 1) maxlen [] stream conn (omega arith) refl
