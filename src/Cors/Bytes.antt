-- ===== src/Cors/Bytes.antt =====
-- The functions of package strings that internal/cors uses, on lists of bytes.
pub mod Laws
use Prim.Native.Char.{code}
use Prim.Native.String
use tenta_cron.Prelude.{
  ℕ, zero, suc, ◌+◌, ◌-◌, String, Bool, true, false, ◌&&◌, ◌||◌, not, Option, none, some, List, [],
  ◌∷◌, ◌++◌, map, if◌then◌else◌, ◌==◌, leb, ltb, length, is_some,
}

abbrev pub bytes : String → List ℕ
bytes String.[] = []
bytes (String.◌∷◌ c s) = code c ∷ bytes s

unfoldable pub eq_bytes : List ℕ → List ℕ → Bool
eq_bytes [] [] = true
eq_bytes [] (d ∷ t) = false
eq_bytes (c ∷ s) [] = false
eq_bytes (c ∷ s) (d ∷ t) = (c == d) && eq_bytes s t

abbrev pub lower_byte : ℕ → ℕ
lower_byte c = if leb 65 c && leb c 90 then c + 32 else c

abbrev pub upper_byte : ℕ → ℕ
upper_byte c = if leb 97 c && leb c 122 then c - 32 else c

-- `strings.ToLower`, `strings.ToUpper`, `strings.EqualFold`
abbrev pub to_lower : List ℕ → List ℕ
to_lower s = map lower_byte s

abbrev pub to_upper : List ℕ → List ℕ
to_upper s = map upper_byte s

abbrev pub equal_fold : List ℕ → List ℕ → Bool
equal_fold s t = eq_bytes (to_lower s) (to_lower t)

-- What follows a prefix.
unfoldable pub strip_prefix : List ℕ → List ℕ → Option (List ℕ)
strip_prefix [] s = some s
strip_prefix (c ∷ p) [] = none
strip_prefix (c ∷ p) (d ∷ s) = if c == d then strip_prefix p s else none

-- `strings.HasPrefix`
abbrev pub has_prefix : List ℕ → List ℕ → Bool
has_prefix s p = is_some (strip_prefix p s)

-- `strings.HasSuffix`
unfoldable pub has_suffix : List ℕ → List ℕ → Bool
has_suffix [] p = eq_bytes [] p
has_suffix (c ∷ s) p = eq_bytes (c ∷ s) p || has_suffix s p

abbrev pub cut_at : Option (List ℕ) → ℕ → Option (List ℕ × List ℕ) → Option (List ℕ × List ℕ)
cut_at (some rest) c later = some ([], rest)
cut_at none c none = none
cut_at none c (some (before, after)) = some (c ∷ before, after)

-- `strings.Cut` at a separator that is not empty: what is before and after its first occurrence.
unfoldable pub cut : List ℕ → List ℕ → Option (List ℕ × List ℕ)
cut [] sep = none
cut (c ∷ s) sep = cut_at (strip_prefix sep (c ∷ s)) c (cut s sep)

-- `strings.Contains`
abbrev pub contains : List ℕ → List ℕ → Bool
contains s sep = is_some (cut s sep)

unfoldable pub has_byte : ℕ → List ℕ → Bool
has_byte c [] = false
has_byte c (d ∷ s) = (c == d) || has_byte c s

-- `slices.Contains`
unfoldable pub has_entry : List ℕ → List (List ℕ) → Bool
has_entry s [] = false
has_entry s (t ∷ ts) = eq_bytes s t || has_entry s ts
