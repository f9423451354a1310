-- ===== src/Text/Split.antt =====
-- `split` and `trim` on text that is put together from its parts.
use reqwless.Base.{
  ℕ, ◌≡◌, ◌≢◌, refl, Bool, true, false, ◌&&◌, List, [], ◌∷◌, ◌++◌, All, ==_iff, is_empty, ne→==,
}
use reqwless.Text.{split, trim, trim_start, trim_end, is_whitespace}

-- A part without the separator is cut off where the separator follows.
pub split-append :
    (sep : ℕ) (xs ys : List ℕ)
    → All (λ c. c ≢ sep) xs
    → split sep (xs ++ (sep ∷ ys)) ≡ xs ∷ split sep ys
unfolding split
split-append sep [] ys h = rw ((==_iff sep sep).1 refl) refl
split-append sep (x ∷ xs) ys (n, h) = rw (ne→== x sep n, split-append sep xs ys h) refl

pub split_whole : (sep : ℕ) (xs : List ℕ) → All (λ c. c ≢ sep) xs → split sep xs ≡ xs ∷ []
unfolding split
split_whole sep [] h = refl
split_whole sep (x ∷ xs) (n, h) = rw (ne→== x sep n, split_whole sep xs h) refl

and_false : (b : Bool) → (b && false) ≡ false
and_false true = refl
and_false false = refl

pub trim_end-solid : (xs : List ℕ) → All (λ c. is_whitespace c ≡ false) xs → trim_end xs ≡ xs
unfolding trim_end
trim_end-solid [] h = refl
trim_end-solid (x ∷ xs) (n, h) = rw (trim_end-solid xs h, n, and_false (is_empty xs)) refl

-- Text without white space is left as it is.
pub trim-solid : (xs : List ℕ) → All (λ c. is_whitespace c ≡ false) xs → trim xs ≡ xs
unfolding trim_start
trim-solid [] h = trim_end-solid [] h
trim-solid (x ∷ xs) (n, h) = rw n (trim_end-solid (x ∷ xs) (n, h))
