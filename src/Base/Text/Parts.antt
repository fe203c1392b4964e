-- ===== src/Base/Text/Parts.antt =====
-- `strings.Split`, `strings.TrimSuffix` and the lines of a file, on texts of known parts.
use dist_sys_demos.Base.{ℕ, List, Bool, ◌≡◌, refl, ap, ◌∙◌, true, false, [], ◌∷◌, ◌++◌, ◌==◌}
use dist_sys_demos.Base.Text.{Text, split, add_byte, trim_newline, with_newlines, read_strings}

-- The byte does not occur in the text.
abbrev pub Lacks : ℕ → Text → Type 0
Lacks b [] = Unit
Lacks b (c ∷ s) = (c == b ≡ false) × Lacks b s

pub split-last : (b : ℕ) (s : Text) → Lacks b s → split b s ≡ s ∷ []
unfolding split
split-last b [] h = refl
split-last b (c ∷ s) (n, h) = rw (n, split-last b s h) refl

-- A separator ends the first part.
pub split-word :
    (b : ℕ) (s t : Text) → b == b ≡ true → Lacks b s → split b (s ++ b ∷ t) ≡ s ∷ split b t
unfolding split
split-word b [] t e h = rw e refl
split-word b (c ∷ s) t e (n, h) = rw (n, split-word b s t e h) refl

pub trim_newline-line : (s : Text) → trim_newline (s ++ 10 ∷ []) ≡ s
unfolding trim_newline
trim_newline-line [] = refl
trim_newline-line (c ∷ []) = refl
trim_newline-line (c ∷ d ∷ s) = ap (λ (t : Text). c ∷ t) (trim_newline-line (d ∷ s))

pub trim_newline-Lacks : (s : Text) → Lacks 10 s → trim_newline s ≡ s
unfolding trim_newline
trim_newline-Lacks [] h = refl
trim_newline-Lacks (c ∷ []) h = rw h.0 refl
trim_newline-Lacks (c ∷ d ∷ s) h = ap (λ (t : Text). c ∷ t) (trim_newline-Lacks (d ∷ s) h.1)

pub append-Lacks : (b : ℕ) (s t : Text) → Lacks b s → Lacks b t → Lacks b (s ++ t)
append-Lacks b [] t hs ht = ht
append-Lacks b (c ∷ s) t hs ht = (hs.0, append-Lacks b s t hs.1 ht)

add_byte-cons :
    (y : Bool) (c : ℕ) (p : Text) (ps : List Text)
    → (q : Text) × (qs : List Text) × (add_byte y c (p ∷ ps) ≡ q ∷ qs)
add_byte-cons true c p ps = ([], p ∷ ps, refl)
add_byte-cons false c p ps = (c ∷ p, ps, refl)

split-cons : (b : ℕ) (s : Text) → (p : Text) × (ps : List Text) × (split b s ≡ p ∷ ps)
unfolding split
split-cons b [] = ([], [], refl)
split-cons b (c ∷ s) =
    let (p, ps, e) = split-cons b s in
    let (q, qs, f) = add_byte-cons (c == b) c p ps in (q, qs, rw e f)

-- A line is read with its newline, and then the rest of the file.
pub read_strings-line :
    (l s : Text) → Lacks 10 l → read_strings (l ++ 10 ∷ s) ≡ (l ++ 10 ∷ []) ∷ read_strings s
unfolding read_strings
read_strings-line l s h =
    let (p, ps, e) = split-cons 10 s in ap with_newlines (split-word 10 l s refl h) ∙ rw e refl

-- What is left without a newline is read as it is.
pub read_strings-last : (l : Text) → Lacks 10 l → read_strings l ≡ l ∷ []
unfolding read_strings
read_strings-last l h = ap with_newlines (split-last 10 l h)
