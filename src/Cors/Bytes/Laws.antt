-- ===== src/Cors/Bytes/Laws.antt =====
-- Laws of the functions on texts.
use tenta_cron.Prelude.{
  ℕ, ◌≡◌, refl, true, none, some, List, [], ◌∷◌, ◌++◌, Bool-cases, inl, inr, ◌==◌, arith, and_left,
  and_right, some_injective, or_true,
}
use tenta_cron.Cors.Bytes.{eq_bytes, strip_prefix, has_suffix}

eq→≡ : (c d : ℕ) → (c == d) ≡ true → c ≡ d
eq→≡ c d h = ground arith

pub eq_bytes→≡ : (s t : List ℕ) → eq_bytes s t ≡ true → s ≡ t
unfolding eq_bytes
eq_bytes→≡ [] [] h = refl
eq_bytes→≡ [] (d ∷ t) h = cc
eq_bytes→≡ (c ∷ s) [] h = cc
eq_bytes→≡ (c ∷ s) (d ∷ t) h =
    let first : c ≡ d = eq→≡ c d (and_left (c == d) (eq_bytes s t) h) in
    rw (first, eq_bytes→≡ s t (and_right (c == d) (eq_bytes s t) h)) refl

pub eq_bytes_refl : (s : List ℕ) → eq_bytes s s ≡ true
unfolding eq_bytes
eq_bytes_refl [] = refl
eq_bytes_refl (c ∷ s) = let same : (c == c) ≡ true = ground arith in rw (same, eq_bytes_refl s) refl

pub strip_prefix-append : (p s t : List ℕ) → strip_prefix p s ≡ some t → s ≡ p ++ t
unfolding strip_prefix
strip_prefix-append [] s t h = some_injective h
strip_prefix-append (c ∷ p) [] t h = cc
strip_prefix-append (c ∷ p) (d ∷ s) t h = elim (Bool-cases (c == d)) [
  | inl e ↦ let first : c ≡ d = eq→≡ c d e in rw (first, strip_prefix-append p s t (rw e at h)) refl
  | inr e ↦ let no : none ≡ some t = rw e at h in cc
]

pub strip_prefix_own : (p t : List ℕ) → strip_prefix p (p ++ t) ≡ some t
unfolding strip_prefix
strip_prefix_own [] t = refl
strip_prefix_own (c ∷ p) t =
    let same : (c == c) ≡ true = ground arith in rw (same, strip_prefix_own p t) refl

pub has_suffix-append : (s p : List ℕ) → has_suffix s p ≡ true → (t : List ℕ) × (s ≡ t ++ p)
unfolding has_suffix
has_suffix-append [] p h = ([], eq_bytes→≡ [] p h)
has_suffix-append (c ∷ s) p h = elim (Bool-cases (eq_bytes (c ∷ s) p)) [
  | inl e ↦ ([], eq_bytes→≡ (c ∷ s) p e)
  | inr e ↦ let rest = has_suffix-append s p (rw e at h) in (c ∷ rest.0, rw (← rest.1) refl)
]

pub has_suffix_own : (t p : List ℕ) → has_suffix (t ++ p) p ≡ true
unfolding has_suffix
has_suffix_own [] [] = eq_bytes_refl []
has_suffix_own [] (c ∷ p) = rw (eq_bytes_refl (c ∷ p)) refl
has_suffix_own (d ∷ t) p = rw (has_suffix_own t p) (or_true (eq_bytes (d ∷ t ++ p) p))
