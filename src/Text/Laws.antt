-- ===== src/Text/Laws.antt =====
-- About equality, order, trimming and cutting of texts.
use ai_cloudhub.Common.{
  ℕ, zero, suc, ◌-◌, ◌≤◌, ◌≡◌, refl, ap, ◌↔◌, ◌⊎◌, true, false, [], ◌∷◌, ◌++◌, reverse, arith,
  length, length-drop, length-append,
}
use mathlib.Core.List.{reverse-cons}
use ai_cloudhub.Text.{
  Text, ◌==◌, text_lt, trim_from, space_len, space_len_back, trim_space, tail_bytes, has_prefix,
  contains_text,
}

==_to_≡ : (s t : Text) → (s == t) ≡ true → s ≡ t
unfolding ◌==◌
==_to_≡ [] [] h = refl
==_to_≡ [] (d ∷ ds) h = ground arith
==_to_≡ (c ∷ cs) [] h = ground arith
==_to_≡ (c ∷ cs) (d ∷ ds) h = ground (arith, ==_to_≡ cs ds)

pub ==_refl : (s : Text) → (s == s) ≡ true
unfolding ◌==◌
==_refl [] = refl
==_refl (c ∷ cs) = ground (arith, ==_refl cs)

pub ==_iff : (s t : Text) → ((s == t) ≡ true) ↔ (s ≡ t)
==_iff s t = (==_to_≡ s t, λ e. rw e (==_refl t))

pub ==_sym : (s t : Text) → (s == t) ≡ (t == s)
==_sym s t = ground (arith, ==_iff s t, ==_iff t s)

pub text_lt_irrefl : (s : Text) → text_lt s s ≡ false
unfolding text_lt
text_lt_irrefl [] = refl
text_lt_irrefl (c ∷ cs) = ground (arith, text_lt_irrefl cs)

pub text_lt_trans : (s t u : Text) → text_lt s t ≡ true → text_lt t u ≡ true → text_lt s u ≡ true
unfolding text_lt
text_lt_trans s t [] h k = ground arith
text_lt_trans s [] (e ∷ es) h k = cc
text_lt_trans [] (d ∷ ds) (e ∷ es) h k = refl
text_lt_trans (c ∷ cs) (d ∷ ds) (e ∷ es) h k = ground (arith, text_lt_trans cs ds es)

pub text_lt_total : (s t : Text) → (text_lt s t ≡ true) ⊎ (text_lt t s ≡ true) ⊎ (s ≡ t)
unfolding text_lt
text_lt_total [] [] = ground arith
text_lt_total [] (d ∷ ds) = ground arith
text_lt_total (c ∷ cs) [] = ground arith
text_lt_total (c ∷ cs) (d ∷ ds) = ground (arith, text_lt_total cs ds)

pub length-tail_bytes : (n : ℕ) (s : Text) → length (tail_bytes n s) ≤ n
unfolding tail_bytes
length-tail_bytes n s = omega (arith, length-drop {0} (length s - n) s)

length-trim_from : (f : Text → ℕ) (k : ℕ) (s : Text) → length (trim_from f k s) ≤ length s
unfolding trim_from
length-trim_from f k [] = omega arith
length-trim_from f (suc k) (c ∷ cs) = omega (arith, length-trim_from f k cs)
length-trim_from f zero (c ∷ cs) =
    elim (f (c ∷ cs))
      as (λ n. length (elim n [ zero ↦ c ∷ cs | suc m ↦ trim_from f m cs ]) ≤ suc (length cs)) [
        | zero ↦ omega arith
        | suc n ↦ omega (arith, length-trim_from f n cs)
      ]

length-reverse : (s : Text) → length (reverse s) ≡ length s
length-reverse [] = refl
length-reverse (x ∷ xs) =
    omega
      (arith, ap length (reverse-cons x xs), length-append (reverse xs) (x ∷ []), length-reverse xs)

-- Trimming never makes a text longer.
pub length-trim_space : (s : Text) → length (trim_space s) ≤ length s
unfolding trim_space
length-trim_space s =
    let once = trim_from space_len 0 s in
    let twice = trim_from space_len_back 0 (reverse once) in
    omega (
      arith,
      length-reverse twice,
      length-trim_from space_len_back 0 (reverse once),
      length-reverse once,
      length-trim_from space_len 0 s,
    )

-- A text stands in whatever has it as a prefix, after any front.
pub has_prefix-append : (p s : Text) → has_prefix (p ++ s) p ≡ true
unfolding has_prefix
has_prefix-append [] [] = refl
has_prefix-append [] (c ∷ cs) = refl
has_prefix-append (c ∷ cs) s = ground (arith, has_prefix-append cs s)

contains_text_of_prefix : (s p : Text) → has_prefix s p ≡ true → contains_text s p ≡ true
unfolding contains_text
contains_text_of_prefix [] p h = h
contains_text_of_prefix (c ∷ cs) p h = rw h

pub contains_text-append : (a p b : Text) → contains_text (a ++ (p ++ b)) p ≡ true
unfolding contains_text
contains_text-append [] p b = contains_text_of_prefix (p ++ b) p (has_prefix-append p b)
contains_text-append (c ∷ a) p b = ground (arith, contains_text-append a p b)
