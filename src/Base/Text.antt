-- ===== src/Base/Text.antt =====
-- Go strings as lists of bytes, their equality, and what the programs use of `strings` and
-- `strconv`.
pub mod Numerals
pub mod Parts
use Prim.Native.Char.{code}
use Prim.Native.String.{String}
use dist_sys_demos.Base.Int.{ℤ, pos, negsuc}
use mathlib.Core.List.{reverse}
use dist_sys_demos.Base.{
  zero, suc, ◌+◌, ◌-◌, ◌*◌, ◌/◌, ◌%◌, ltb, leb, if◌then◌else◌, Option, none, some, ℕ, ◌≡◌, refl,
  ◌↔◌, Bool, true, false, ◌&&◌, List, [], ◌∷◌, ◌++◌, arith, Eq, ◌==◌,
}

abbrev pub Text : Type 0
Text = List ℕ

-- A literal's bytes.
abbrev pub codes : String → Text
codes String.[] = []
codes (String.◌∷◌ c s) = code c ∷ codes s

unfoldable pub text_beq : Text → Text → Bool
text_beq [] [] = true
text_beq [] (b ∷ t) = false
text_beq (a ∷ s) [] = false
text_beq (a ∷ s) (b ∷ t) = a == b && text_beq s t

text_beq_to : (s t : Text) → text_beq s t ≡ true → s ≡ t
unfolding text_beq
text_beq_to [] [] h = refl
text_beq_to [] (b ∷ t) h = cc
text_beq_to (a ∷ s) [] h = cc
text_beq_to (a ∷ s) (b ∷ t) h = ground (arith, text_beq_to s t)

text_beq_self : (s : Text) → text_beq s s ≡ true
unfolding text_beq
text_beq_self [] = refl
text_beq_self (a ∷ s) = ground (arith, text_beq_self s)

pub text_beq_iff : (s t : Text) → (text_beq s t ≡ true) ↔ (s ≡ t)
text_beq_iff s t = (text_beq_to s t, λ p. rw p (text_beq_self t))

instance abbrev pub text_eq : Eq Text
text_eq = record { beq = text_beq; beq_iff = text_beq_iff }

-- A byte in front of the parts of what follows; a separator begins a new part.
abbrev pub add_byte : Bool → ℕ → List Text → List Text
add_byte true c parts = [] ∷ parts
add_byte false c [] = []
add_byte false c (p ∷ parts) = (c ∷ p) ∷ parts

abbrev negate : ℕ → ℤ
negate zero = pos 0
negate (suc n) = negsuc n

-- `strings.Split(s, sep)` for a separator of one byte: at least one part.
pub split : ℕ → Text → List Text
split sep [] = [] ∷ []
split sep (c ∷ s) = add_byte (c == sep) c (split sep s)

-- `strings.TrimSuffix(s, "\n")`
pub trim_newline : Text → Text
trim_newline [] = []
trim_newline (c ∷ []) = if c == 10 then [] else c ∷ []
trim_newline (c ∷ d ∷ s) = c ∷ trim_newline (d ∷ s)

abbrev pub with_newlines : List Text → List Text
with_newlines [] = []
with_newlines (l ∷ []) = l ∷ []
with_newlines (l ∷ k ∷ ls) = (l ++ 10 ∷ []) ∷ with_newlines (k ∷ ls)

-- What the calls of `ReadString('\n')` return, up to the call that meets the end of the file: every
-- line with its newline, and last what stands behind the last newline, which may be nothing.
unfoldable pub read_strings : Text → List Text
unfolding split
read_strings file = with_newlines (split 10 file)

-- The decimal digits of a number, last first; `n + 1` rounds are enough.
pub digits_rev : ℕ → ℕ → Text
digits_rev zero n = []
digits_rev (suc fuel) n =
    let rest = digits_rev fuel (n / 10) in if ltb n 10 then (48 + n) ∷ [] else (48 + n % 10) ∷ rest

-- `strconv.Itoa`
pub itoa : ℤ → Text
itoa (pos n) = reverse (digits_rev (suc n) n)
itoa (negsuc n) = 45 ∷ reverse (digits_rev (suc (suc n)) (suc n))

-- The value of a text of digits, after the value of those before it.
pub digits_value : ℕ → Text → Option ℕ
digits_value n [] = some n
digits_value n (c ∷ s) =
    let rest = digits_value (10 * n + (c - 48)) s in if leb 48 c && leb c 57 then rest else none

abbrev pub unsigned : Text → Option ℕ
unsigned [] = none
unsigned (c ∷ s) = digits_value 0 (c ∷ s)

-- `strconv.Atoi`, with an optional sign; `none` is its error.
pub atoi : Text → Option ℤ
atoi [] = none
atoi (c ∷ s) =
    if c == 45
    then elim (unsigned s) [ none ↦ none | some n ↦ some (negate n) ]
    else if c == 43
    then elim (unsigned s) [ none ↦ none | some n ↦ some (pos n) ]
    else elim (unsigned (c ∷ s)) [ none ↦ none | some n ↦ some (pos n) ]
