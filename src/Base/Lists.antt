-- ===== src/Base/Lists.antt =====
-- Lists measured by native numbers, and arrays of bytes as lists.
use Prim.Native.Nat.{ℕ, zero, suc, ◌+◌, ◌-◌, ◌≤◌, ◌<◌}
use Prim.Native.Char.{code}
use Prim.Native.String.{String}
use mathlib.Core.Path.{◌≡◌, refl, ap, ◌∙◌}
use mathlib.Core.List.{List, [], ◌∷◌, ◌++◌}
use mathlib.Core.Option.{Option, none, some}
use native.Mathlib.Omega.{arith}

abbrev pub Bytes : Type 0
Bytes = List ℕ

-- The bytes of an ASCII text.
abbrev pub codes : String → Bytes
codes String.[] = []
codes (String.◌∷◌ c s) = code c ∷ codes s

module _ {ℓ} {A : Type ℓ} where
  abbrev pub length : List A → ℕ
  length [] = 0
  length (x ∷ xs) = suc (length xs)

  abbrev pub get_elem? : List A → ℕ → Option A
  get_elem? [] i = none
  get_elem? (x ∷ xs) zero = some x
  get_elem? (x ∷ xs) (suc i) = get_elem? xs i

  abbrev pub take : ℕ → List A → List A
  take zero xs = []
  take (suc n) [] = []
  take (suc n) (x ∷ xs) = x ∷ take n xs

  abbrev pub drop : ℕ → List A → List A
  drop zero xs = xs
  drop (suc n) [] = []
  drop (suc n) (x ∷ xs) = drop n xs

  abbrev pub replicate : ℕ → A → List A
  replicate zero a = []
  replicate (suc n) a = a ∷ replicate n a

  -- The bytes `ys` written over `xs` from its start; what does not fit is dropped.
  abbrev pub overlay : List A → List A → List A
  overlay [] ys = []
  overlay (x ∷ xs) [] = x ∷ xs
  overlay (x ∷ xs) (y ∷ ys) = y ∷ overlay xs ys

  -- The bytes `ys` written over `xs` from index `i`.
  abbrev pub write_at : List A → ℕ → List A → List A
  write_at xs zero ys = overlay xs ys
  write_at [] (suc i) ys = []
  write_at (x ∷ xs) (suc i) ys = x ∷ write_at xs i ys

  -- The first `n` elements changed by `f`, in place.
  abbrev pub map_prefix : ℕ → (A → A) → List A → List A
  map_prefix zero f xs = xs
  map_prefix (suc n) f [] = []
  map_prefix (suc n) f (x ∷ xs) = f x ∷ map_prefix n f xs

module _ {ℓ} {A : Type ℓ} where
  pub length-append : (xs ys : List A) → length (xs ++ ys) ≡ length xs + length ys
  length-append [] ys = omega arith
  length-append (x ∷ xs) ys = omega (arith, length-append xs ys)

  pub length-replicate : (n : ℕ) (a : A) → length (replicate n a) ≡ n
  length-replicate zero a = refl
  length-replicate (suc n) a = ap suc (length-replicate n a)

  pub length-overlay : (xs ys : List A) → length (overlay xs ys) ≡ length xs
  length-overlay [] ys = refl
  length-overlay (x ∷ xs) [] = refl
  length-overlay (x ∷ xs) (y ∷ ys) = ap suc (length-overlay xs ys)

  pub length-write_at : (xs : List A) (i : ℕ) (ys : List A) → length (write_at xs i ys) ≡ length xs
  length-write_at xs zero ys = length-overlay xs ys
  length-write_at [] (suc i) ys = refl
  length-write_at (x ∷ xs) (suc i) ys = ap suc (length-write_at xs i ys)

  pub length-map_prefix : (n : ℕ) (f : A → A) (xs : List A) → length (map_prefix n f xs) ≡ length xs
  length-map_prefix zero f xs = refl
  length-map_prefix (suc n) f [] = refl
  length-map_prefix (suc n) f (x ∷ xs) = ap suc (length-map_prefix n f xs)

  pub length-take : (n : ℕ) (xs : List A) → n ≤ length xs → length (take n xs) ≡ n
  length-take zero xs h = refl
  length-take (suc n) [] h = elim h [ ]
  length-take (suc n) (x ∷ xs) h = ap suc (length-take n xs (omega arith))

  pub take-take : (m n : ℕ) (xs : List A) → m ≤ n → take m (take n xs) ≡ take m xs
  take-take zero n xs h = refl
  take-take (suc m) zero xs h = elim h [ ]
  take-take (suc m) (suc n) [] h = refl
  take-take (suc m) (suc n) (x ∷ xs) h = ap (◌∷◌ x) (take-take m n xs (omega arith))

  pub take_all : (xs : List A) → take (length xs) xs ≡ xs
  take_all [] = refl
  take_all (x ∷ xs) = ap (◌∷◌ x) (take_all xs)

  pub length-drop : (n : ℕ) (xs : List A) → length (drop n xs) ≡ length xs - n
  length-drop zero xs = omega arith
  length-drop (suc n) [] = omega arith
  length-drop (suc n) (x ∷ xs) = omega (arith, length-drop n xs)

  pub take-append-drop : (n : ℕ) (xs : List A) → take n xs ++ drop n xs ≡ xs
  take-append-drop zero xs = refl
  take-append-drop (suc n) [] = refl
  take-append-drop (suc n) (x ∷ xs) = ap (◌∷◌ x) (take-append-drop n xs)

  pub drop-nil : (n : ℕ) → drop {A = A} n [] ≡ []
  drop-nil zero = refl
  drop-nil (suc n) = refl

  pub drop-drop : (m n : ℕ) (xs : List A) → drop n (drop m xs) ≡ drop (m + n) xs
  drop-drop zero n xs = rw (let e : 0 + n ≡ n = omega arith in e) refl
  drop-drop (suc m) n [] = rw (drop-nil n, drop-nil (suc m + n)) refl
  drop-drop (suc m) n (x ∷ xs) =
      drop-drop m n xs ∙ rw (let e : suc m + n ≡ suc (m + n) = omega arith in e) refl

  pub take-overlay :
      (xs ys zs : List A) → length ys ≤ length xs → take (length ys) (overlay xs (ys ++ zs)) ≡ ys
  take-overlay [] [] zs h = refl
  take-overlay [] (y ∷ ys) zs h = elim h [ ]
  take-overlay (x ∷ xs) [] zs h = refl
  take-overlay (x ∷ xs) (y ∷ ys) zs h = ap (◌∷◌ y) (take-overlay xs ys zs (omega arith))

  -- What lies before the place of a write stays.
  pub take-write_at_before :
      (n : ℕ) (xs : List A) (i : ℕ) (ys : List A) → n ≤ i → take n (write_at xs i ys) ≡ take n xs
  take-write_at_before zero xs i ys h = refl
  take-write_at_before (suc n) xs zero ys h = elim h [ ]
  take-write_at_before (suc n) [] (suc i) ys h = refl
  take-write_at_before (suc n) (x ∷ xs) (suc i) ys h =
      ap (◌∷◌ x) (take-write_at_before n xs i ys (omega arith))

  pub take-add-write_at :
      (xs : List A) (i : ℕ) (ys zs : List A)
      → i + length ys ≤ length xs
      → take (i + length ys) (write_at xs i (ys ++ zs)) ≡ take i xs ++ ys
  take-add-write_at xs zero ys zs h =
      rw (let e : 0 + length ys ≡ length ys = omega arith in e)
        (take-overlay xs ys zs (omega arith))
  take-add-write_at [] (suc i) ys zs h = absurd (omega arith)
  take-add-write_at (x ∷ xs) (suc i) ys zs h =
      rw (let e : suc i + length ys ≡ suc (i + length ys) = omega arith in e)
        (ap (◌∷◌ x) (take-add-write_at xs i ys zs (omega arith)))

  pub get_elem?-write_at :
      (xs : List A) (i : ℕ) (y : A) → i < length xs → get_elem? (write_at xs i (y ∷ [])) i ≡ some y
  get_elem?-write_at [] i y h = elim h [ ]
  get_elem?-write_at (x ∷ xs) zero y h = refl
  get_elem?-write_at (x ∷ xs) (suc i) y h = get_elem?-write_at xs i y (omega arith)

  pub take-append : (n : ℕ) (xs ys : List A) → n ≤ length xs → take n (xs ++ ys) ≡ take n xs
  take-append zero xs ys h = refl
  take-append (suc n) [] ys h = elim h [ ]
  take-append (suc n) (x ∷ xs) ys h = ap (◌∷◌ x) (take-append n xs ys (omega arith))

  pub take-append_all : (xs ys : List A) → take (length xs) (xs ++ ys) ≡ xs
  take-append_all [] ys = refl
  take-append_all (x ∷ xs) ys = ap (◌∷◌ x) (take-append_all xs ys)

  pub drop-append_all : (xs ys : List A) → drop (length xs) (xs ++ ys) ≡ ys
  drop-append_all [] ys = refl
  drop-append_all (x ∷ xs) ys = drop-append_all xs ys

  -- Taking from a dropped prefix is dropping from a taken one.
  pub drop-take : (i n : ℕ) (xs : List A) → take n (drop i xs) ≡ drop i (take (i + n) xs)
  drop-take zero n xs = rw (let e : 0 + n ≡ n = omega arith in e) refl
  drop-take (suc i) n [] = rw (let e : suc i + n ≡ suc (i + n) = omega arith in e) (take-nil n)
    where
      take-nil : (n : ℕ) → take {A = A} n [] ≡ []
      take-nil zero = refl
      take-nil (suc n) = refl
  drop-take (suc i) n (x ∷ xs) =
      rw (let e : suc i + n ≡ suc (i + n) = omega arith in e) (drop-take i n xs)
