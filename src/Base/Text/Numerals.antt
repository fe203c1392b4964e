-- ===== src/Base/Text/Numerals.antt =====
-- `strconv.Atoi` reads what `strconv.Itoa` writes.
use mathlib.Core.List.{reverse, reverse-append}
use dist_sys_demos.Base.{
  ℕ, zero, suc, ◌+◌, ◌-◌, ◌*◌, ◌/◌, ◌%◌, ◌≤◌, ◌<◌, ◌≡◌, refl, ap, sym, ◌∙◌, true, some, [], ◌∷◌,
  ◌++◌, arith, ltb, Bool-cases, inl, inr,
}
use dist_sys_demos.Base.Int.{ℤ, pos, negsuc}
use dist_sys_demos.Base.Text.Parts.{Lacks}
use dist_sys_demos.Base.Text.{Text, digits_rev, itoa, digits_value, atoi, unsigned}

abbrev pub AllDigits : Text → Type 0
AllDigits [] = Unit
AllDigits (c ∷ s) = (48 ≤ c) × (c ≤ 57) × AllDigits s

digits_value-snoc :
    (acc v d : ℕ) (s : Text)
    → d < 10
    → digits_value acc s ≡ some v
    → digits_value acc (s ++ (48 + d) ∷ []) ≡ some (10 * v + d)
unfolding digits_value
digits_value-snoc acc v d [] h e = ground arith
digits_value-snoc acc v d (c ∷ s) h e =
    ground (arith, digits_value-snoc (10 * acc + (c - 48)) v d s h)

digits_value-digits_rev :
    (fuel n : ℕ) → n < fuel → digits_value 0 (reverse (digits_rev fuel n)) ≡ some n
unfolding digits_rev digits_value
digits_value-digits_rev zero n h = absurd (omega arith)
digits_value-digits_rev (suc fuel) n h = elim (Bool-cases (ltb n 10)) [
  | inl small ↦ rw small (single small)
  | inr large ↦
      rw (large, reverse-append ((48 + n % 10) ∷ []) (digits_rev fuel (n / 10)))
        (digits_value-snoc 0 (n / 10) (n % 10) (reverse (digits_rev fuel (n / 10))) (omega arith)
            (digits_value-digits_rev fuel (n / 10) (ground arith))
          ∙ ap (λ (k : ℕ). some k) (omega arith))
]
  where
    single : ltb n 10 ≡ true → digits_value 0 (reverse ((48 + n) ∷ [])) ≡ some n
    single small =
        digits_value-snoc 0 0 n [] (ground arith) refl ∙ ap (λ (k : ℕ). some k) (omega arith)

digits_value-AllDigits : (acc v : ℕ) (s : Text) → digits_value acc s ≡ some v → AllDigits s
unfolding digits_value
digits_value-AllDigits acc v [] e = tt
digits_value-AllDigits acc v (c ∷ s) e =
    ground (arith, digits_value-AllDigits (10 * acc + (c - 48)) v s)

unsigned-snoc : (s : Text) (x : ℕ) → unsigned (s ++ x ∷ []) ≡ digits_value 0 (s ++ x ∷ [])
unsigned-snoc [] x = refl
unsigned-snoc (c ∷ s) x = refl

unsigned-reverse :
    (x : ℕ) (r : Text) → unsigned (reverse (x ∷ r)) ≡ digits_value 0 (reverse (x ∷ r))
unsigned-reverse x r = rw (reverse-append (x ∷ []) r) (unsigned-snoc (reverse r) x)

-- Some digit is written.
digits_rev-cons : (fuel n : ℕ) → (x : ℕ) × (r : Text) × (digits_rev (suc fuel) n ≡ x ∷ r)
unfolding digits_rev
digits_rev-cons fuel n = elim (Bool-cases (ltb n 10)) [
  | inl small ↦ (48 + n, [], rw small refl)
  | inr large ↦ (48 + n % 10, digits_rev fuel (n / 10), rw large refl)
]

unsigned-digits_rev :
    (fuel n : ℕ) → n < suc fuel → unsigned (reverse (digits_rev (suc fuel) n)) ≡ some n
unsigned-digits_rev fuel n h =
    let (x, r, e) = digits_rev-cons fuel n in
    ap (λ (t : Text). unsigned (reverse t)) e
    ∙ unsigned-reverse x r
    ∙ ap (λ (t : Text). digits_value 0 (reverse t)) (sym e)
    ∙ digits_value-digits_rev (suc fuel) n h

-- A text that is an unsigned number has no sign.
atoi-unsigned : (s : Text) (v : ℕ) → unsigned s ≡ some v → atoi s ≡ some (pos v)
unfolding atoi digits_value
atoi-unsigned [] v e = cc
atoi-unsigned (c ∷ s) v e = ground (arith, digits_value-AllDigits 0 v (c ∷ s) e)

pub atoi-itoa : (v : ℤ) → atoi (itoa v) ≡ some v
unfolding atoi itoa
atoi-itoa (pos n) =
    atoi-unsigned (reverse (digits_rev (suc n) n)) n (unsigned-digits_rev n n (omega arith))
atoi-itoa (negsuc n) = rw (unsigned-digits_rev (suc n) (suc n) (omega arith)) refl

AllDigits-Lacks : (s : Text) → AllDigits s → Lacks 32 s
AllDigits-Lacks [] h = tt
AllDigits-Lacks (c ∷ s) (lo, hi, h) = (ground arith, AllDigits-Lacks s h)

digits_rev-Lacks : (n : ℕ) → Lacks 32 (reverse (digits_rev (suc n) n))
digits_rev-Lacks n = AllDigits-Lacks (reverse (digits_rev (suc n) n)) (
    digits_value-AllDigits 0 n (reverse (digits_rev (suc n) n))
      (digits_value-digits_rev (suc n) n (omega arith)))

-- No number is written with a space.
pub itoa-Lacks : (v : ℤ) → Lacks 32 (itoa v)
unfolding itoa
itoa-Lacks (pos n) = digits_rev-Lacks n
itoa-Lacks (negsuc n) = (refl, digits_rev-Lacks (suc n))
