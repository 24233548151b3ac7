-- ===== src/Text/Order.antt =====
-- str.c, str_strcmp and the equality tests.
use Prim.Native.Nat.{compare, Ordering}
use checkedc_vsftpd.Base.{◌≡◌, ◌↔◌, refl, true, [], ◌∷◌, arith, Bytes}
use checkedc_vsftpd.Text.{str_equal_internal, str_strcmp, str_equal, str_equal_text}

-- The order that the code computes: byte by byte, and a proper front comes first.
abbrev dictionary : Bytes → Bytes → Ordering
dictionary [] [] = Ordering.eq
dictionary [] (y ∷ b) = Ordering.lt
dictionary (x ∷ a) [] = Ordering.gt
dictionary (x ∷ a) (y ∷ b) = elim (compare x y) [
  | Ordering.lt ↦ Ordering.lt
  | Ordering.gt ↦ Ordering.gt
  | Ordering.eq ↦ dictionary a b
]

internal-dictionary : (a b : Bytes) → str_equal_internal a b ≡ dictionary a b
unfolding str_equal_internal
internal-dictionary [] [] = refl
internal-dictionary [] (y ∷ b) = ground arith
internal-dictionary (x ∷ a) [] = ground arith
internal-dictionary (x ∷ a) (y ∷ b) = ground (arith, internal-dictionary a b)

dictionary_eq : (a b : Bytes) → dictionary a b ≡ Ordering.eq → a ≡ b
dictionary_eq [] [] h = refl
dictionary_eq [] (y ∷ b) h = cc
dictionary_eq (x ∷ a) [] h = cc
dictionary_eq (x ∷ a) (y ∷ b) h = ground (arith, dictionary_eq a b)

dictionary_refl : (a : Bytes) → dictionary a a ≡ Ordering.eq
dictionary_refl [] = refl
dictionary_refl (x ∷ a) = ground (arith, dictionary_refl a)

dictionary_flip : (a b : Bytes) → dictionary a b ≡ Ordering.lt → dictionary b a ≡ Ordering.gt
dictionary_flip [] [] h = cc
dictionary_flip [] (y ∷ b) h = refl
dictionary_flip (x ∷ a) [] h = cc
dictionary_flip (x ∷ a) (y ∷ b) h = ground (arith, dictionary_flip a b)

dictionary_flip' : (a b : Bytes) → dictionary a b ≡ Ordering.gt → dictionary b a ≡ Ordering.lt
dictionary_flip' [] [] h = cc
dictionary_flip' [] (y ∷ b) h = cc
dictionary_flip' (x ∷ a) [] h = refl
dictionary_flip' (x ∷ a) (y ∷ b) h = ground (arith, dictionary_flip' a b)

dictionary_trans :
    (a b c : Bytes)
    → dictionary a b ≡ Ordering.lt
    → dictionary b c ≡ Ordering.lt
    → dictionary a c ≡ Ordering.lt
dictionary_trans [] [] c h k = cc
dictionary_trans [] (y ∷ b) [] h k = cc
dictionary_trans [] (y ∷ b) (z ∷ c) h k = refl
dictionary_trans (x ∷ a) [] c h k = cc
dictionary_trans (x ∷ a) (y ∷ b) [] h k = cc
dictionary_trans (x ∷ a) (y ∷ b) (z ∷ c) h k = ground (arith, dictionary_trans a b c)

-- Two strings are equal by `str_equal` exactly when they have the same bytes.
pub str_equal_iff : (a b : Bytes) → (str_equal a b ≡ true) ↔ (a ≡ b)
unfolding str_equal
str_equal_iff a b = (
  (λ h. dictionary_eq a b (ground (arith, internal-dictionary a b))),
  λ e. ground (arith, internal-dictionary b b, dictionary_refl b),
)

pub str_equal_text_iff : (a t : Bytes) → (str_equal_text a t ≡ true) ↔ (a ≡ t)
unfolding str_equal_text
str_equal_text_iff a b = (
  (λ h. dictionary_eq a b (ground (arith, internal-dictionary a b))),
  λ e. ground (arith, internal-dictionary b b, dictionary_refl b),
)

-- `str_strcmp` answers with opposite signs when its arguments are swapped, and is transitive.
pub record IsOrder (cmp : Bytes → Bytes → Ordering) : Type 0 where
  pub same : (a b : Bytes) → (cmp a b ≡ Ordering.eq) ↔ (a ≡ b)
  pub flips : (a b : Bytes) → (cmp a b ≡ Ordering.lt) ↔ (cmp b a ≡ Ordering.gt)
  pub chains :
      (a b c : Bytes) → cmp a b ≡ Ordering.lt → cmp b c ≡ Ordering.lt → cmp a c ≡ Ordering.lt

-- `str_strcmp` is 0 at equal strings only, changes its sign with the order of its arguments, and
-- is transitive.
pub str_strcmp-IsOrder : IsOrder str_strcmp
unfolding str_strcmp
str_strcmp-IsOrder = record {
  same = λ a b. rw (internal-dictionary a b) (dictionary_eq a b, λ e. rw (← e) (dictionary_refl a));
  flips = λ a b.
      rw (internal-dictionary a b, internal-dictionary b a)
        (dictionary_flip a b, dictionary_flip' b a);
  chains = λ a b c.
      rw (internal-dictionary a b, internal-dictionary b c, internal-dictionary a c)
        (dictionary_trans a b c);
}
