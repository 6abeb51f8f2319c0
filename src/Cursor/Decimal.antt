-- ===== src/Cursor/Decimal.antt =====
-- fmt's %d and strconv.ParseInt(s, 10, 64): an integer in decimal, and back.
use furtalk.Base.{
  ℕ, zero, suc, ◌+◌, ◌-◌, ◌*◌, ◌/◌, ◌%◌, ◌<◌, ◌≤◌, ◌≡◌, refl, ap, ◌∙◌, Bool, true, false, ◌&&◌,
  Option, none, some, [], ◌∷◌, ◌++◌, all, ltb, leb, if◌then◌else◌, arith,
}
use furtalk.Base.Equality.{◌==◌, nat_eq}
use furtalk.Domain.Entities.{Text}

-- `negsuc n` is -(n + 1).
pub data ℤ : Type 0 where
  pos negsuc : ℕ → ℤ

abbrev pub digit : ℕ → ℕ
digit n = 48 + n

-- Digits, the last one from the remainder. A number is enough fuel for itself.
unfoldable pub digits_within : ℕ → ℕ → Text
digits_within zero n = digit (n % 10) ∷ []
digits_within (suc fuel) n = elim (ltb n 10) [
  | true ↦ digit n ∷ []
  | false ↦ digits_within fuel (n / 10) ++ digit (n % 10) ∷ []
]

unfoldable pub print_nat : ℕ → Text
unfolding digits_within
print_nat n = digits_within n n

-- "-"
abbrev pub minus : ℕ
minus = 45

abbrev pub plus : ℕ
plus = 43

unfoldable pub print_int : ℤ → Text
unfolding print_nat
print_int (ℤ.pos n) = print_nat n
print_int (ℤ.negsuc n) = minus ∷ print_nat (suc n)

abbrev pub is_digit : ℕ → Bool
is_digit c = leb 48 c && ltb c 58

abbrev pub value_from : ℕ → Text → ℕ
value_from acc [] = acc
value_from acc (c ∷ cs) = value_from (acc * 10 + (c - 48)) cs

unfoldable pub parse_nat : Text → Option ℕ
parse_nat [] = none
parse_nat (c ∷ cs) = if all is_digit (c ∷ cs) then some (value_from 0 (c ∷ cs)) else none

-- The largest int64 is this less one.
abbrev pub int64_half : ℕ
int64_half = 9223372036854775808

abbrev pub positive : Option ℕ → Option ℤ
positive none = none
positive (some n) = if ltb n int64_half then some (ℤ.pos n) else none

abbrev pub negative : Option ℕ → Option ℤ
negative none = none
negative (some zero) = some (ℤ.pos 0)
negative (some (suc n)) = if ltb n int64_half then some (ℤ.negsuc n) else none

unfoldable pub parse_int : Text → Option ℤ
unfolding parse_nat
parse_int [] = none
parse_int (c ∷ cs) =
    if c == minus
    then negative (parse_nat cs)
    else if c == plus
    then positive (parse_nat cs)
    else positive (parse_nat (c ∷ cs))

-- An int64.
abbrev pub InRange : ℤ → Type 0
InRange (ℤ.pos n) = n < int64_half
InRange (ℤ.negsuc n) = n < int64_half

value_from-append :
    (acc : ℕ) (xs : Text) (c : ℕ)
    → value_from acc (xs ++ c ∷ []) ≡ value_from acc xs * 10 + (c - 48)
value_from-append acc [] c = refl
value_from-append acc (x ∷ xs) c = value_from-append (acc * 10 + (x - 48)) xs c

all-append :
    (p : ℕ → Bool) (xs : Text) (c : ℕ) → all p xs ≡ true → p c ≡ true → all p (xs ++ c ∷ []) ≡ true
all-append p [] c h k = ground (arith, k)
all-append p (x ∷ xs) c h k = ground (arith, h, all-append p xs c)

digits-value : (fuel n : ℕ) → n ≤ fuel → value_from 0 (digits_within fuel n) ≡ n
unfolding digits_within
digits-value zero n h = omega (arith, h)
digits-value (suc fuel) n h = ground (
  arith,
  h,
  value_from-append 0 (digits_within fuel (n / 10)) (digit (n % 10)),
  digits-value fuel (n / 10),
)

pub digits-all : (fuel n : ℕ) → all is_digit (digits_within fuel n) ≡ true
unfolding digits_within
digits-all zero n = ground arith
digits-all (suc fuel) n = ground (
  arith,
  all-append is_digit (digits_within fuel (n / 10)) (digit (n % 10)),
  digits-all fuel (n / 10),
)

abbrev is_empty : Text → Bool
is_empty [] = true
is_empty (c ∷ cs) = false

is_empty-append : (xs : Text) (c : ℕ) → is_empty (xs ++ c ∷ []) ≡ false
is_empty-append [] c = refl
is_empty-append (x ∷ xs) c = refl

digits-is_empty : (fuel n : ℕ) → is_empty (digits_within fuel n) ≡ false
unfolding digits_within
digits-is_empty zero n = refl
digits-is_empty (suc fuel) n =
    ground (arith, is_empty-append (digits_within fuel (n / 10)) (digit (n % 10)))

parse_nat-digits :
    (t : Text) → is_empty t ≡ false → all is_digit t ≡ true → parse_nat t ≡ some (value_from 0 t)
unfolding parse_nat
parse_nat-digits [] e h = absurd (ground (arith, e))
parse_nat-digits (c ∷ cs) e h = ground (arith, h)

parse_nat-print_nat : (n : ℕ) → parse_nat (print_nat n) ≡ some n
unfolding print_nat
parse_nat-print_nat n =
    parse_nat-digits (digits_within n n) (digits-is_empty n n) (digits-all n n)
    ∙ ap some (digits-value n n (omega arith))

-- Digits have no sign before them.
parse_int-digits :
    (t : Text) → all is_digit t ≡ true → is_empty t ≡ false → parse_int t ≡ positive (parse_nat t)
unfolding parse_int
parse_int-digits [] h e = absurd (ground (arith, e))
parse_int-digits (c ∷ cs) h e = ground (arith, h)

parse_int-minus : (t : Text) → parse_int (minus ∷ t) ≡ negative (parse_nat t)
unfolding parse_int
parse_int-minus t = refl

all-weaken :
    (p q : ℕ → Bool)
    → ((c : ℕ) → p c ≡ true → q c ≡ true)
    → (xs : Text) → all p xs ≡ true
    → all q xs ≡ true
all-weaken p q k [] h = refl
all-weaken p q k (x ∷ xs) h = ground (arith, h, k x, all-weaken p q k xs)

-- What %d prints of an int64, ParseInt reads.
pub parse_int-print_int : (z : ℤ) → InRange z → parse_int (print_int z) ≡ some z
unfolding print_int
parse_int-print_int (ℤ.pos n) r =
    parse_int-digits (print_nat n) (digits-all n n) (digits-is_empty n n)
    ∙ ap positive (parse_nat-print_nat n)
    ∙ ground (arith, r)
parse_int-print_int (ℤ.negsuc n) r =
    parse_int-minus (print_nat (suc n))
    ∙ ap negative (parse_nat-print_nat (suc n))
    ∙ ground (arith, r)

-- A printed integer is a sign and digits.
pub print_int-all :
    (p : ℕ → Bool)
    → p minus ≡ true
    → ((c : ℕ) → is_digit c ≡ true → p c ≡ true)
    → (z : ℤ) → all p (print_int z) ≡ true
unfolding print_int print_nat
print_int-all p m d (ℤ.pos n) = all-weaken is_digit p d (print_nat n) (digits-all n n)
print_int-all p m d (ℤ.negsuc n) =
    ground (arith, m, all-weaken is_digit p d (print_nat (suc n)) (digits-all (suc n) (suc n)))
