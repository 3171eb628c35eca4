-- ===== src/Domain/Plain.antt =====
-- Texts without spaces and beyond ASCII, which normalization leaves as they are.
use icloud_api_mangobubu.Base.{
  ℕ, ◌<◌, ◌≡◌, inl, inr, refl, ap, ◌∙◌, Bool, true, false, ◌&&◌, ◌||◌, List, [], ◌∷◌, map, arith,
  leb, ◌==◌, Bool-cases, length, All, Text, is_space, is_blank, trim_left, trim_right, trim_space,
  byte_length,
}
use icloud_api_mangobubu.Domain.Texts.{any_of, put_first, split, ascii_lower}

trim_right-none : (s : Text) → any_of is_space s ≡ false → trim_right s ≡ s
unfolding trim_right is_blank
trim_right-none [] h = refl
trim_right-none (c ∷ cs) h = ground (arith, trim_right-none cs)

pub trim_space-none : (s : Text) → any_of is_space s ≡ false → trim_space s ≡ s
unfolding trim_space trim_left
trim_space-none [] h = refl
trim_space-none (c ∷ cs) h = ground (arith, trim_right-none (c ∷ cs))

is_blank-trim_right : (s : Text) → is_blank (trim_right s) ≡ is_blank s
unfolding trim_right is_blank
is_blank-trim_right [] = refl
is_blank-trim_right (c ∷ cs) = ground (arith, is_blank-trim_right cs)

trim_right_twice : (s : Text) → trim_right (trim_right s) ≡ trim_right s
unfolding trim_right is_blank
trim_right_twice [] = refl
trim_right_twice (c ∷ cs) = elim (Bool-cases (is_space c && is_blank cs)) [
  | inl e ↦ rw e refl
  | inr e ↦ rw (e, is_blank-trim_right cs, e) (ap (λ (t : Text). c ∷ t) (trim_right_twice cs))
]

trim_right-head : (c : ℕ) (cs : Text) → is_space c ≡ false → trim_right (c ∷ cs) ≡ c ∷ trim_right cs
unfolding trim_right is_blank
trim_right-head c cs e = rw e refl

pub trim_space_twice : (s : Text) → trim_space (trim_space s) ≡ trim_space s
unfolding trim_space trim_left
trim_space_twice [] = refl
trim_space_twice (c ∷ cs) = elim (Bool-cases (is_space c)) [
  | inl e ↦ rw e (trim_space_twice cs)
  | inr e ↦
      rw (e, trim_right-head c cs e, e)
        (trim_right-head c (trim_right cs) e ∙ ap (λ (t : Text). c ∷ t) (trim_right_twice cs))
]

-- A test that implies another.
pub any_of_mono :
    (p q : ℕ → Bool) (s : Text)
    → ((c : ℕ) → p c ≡ true → q c ≡ true)
    → any_of q s ≡ false
    → any_of p s ≡ false
any_of_mono p q [] f h = refl
any_of_mono p q (c ∷ cs) f h = ground (arith, f c, any_of_mono p q cs f)

abbrev pub is_wide : ℕ → Bool
is_wide c = leb 0x80 c

abbrev pub is_upper : ℕ → Bool
is_upper c = leb 65 c && leb c 90

pub ascii-All : (s : Text) → any_of is_wide s ≡ false → All (λ c. c < 0x80) s
ascii-All [] h = tt
ascii-All (c ∷ cs) h = (ground arith, ascii-All cs (ground arith))

pub byte_length-ascii : (s : Text) → any_of is_wide s ≡ false → byte_length s ≡ length s
byte_length-ascii [] h = refl
byte_length-ascii (c ∷ cs) h = ground (arith, byte_length-ascii cs)

pub map-ascii_lower : (s : Text) → any_of is_upper s ≡ false → map ascii_lower s ≡ s
map-ascii_lower [] h = refl
map-ascii_lower (c ∷ cs) h = ground (arith, map-ascii_lower cs)

-- The parts of a text.
abbrev pub any_in : (ℕ → Bool) → List Text → Bool
any_in p [] = false
any_in p (part ∷ parts) = any_of p part || any_in p parts

any_in-put_first :
    (p : ℕ → Bool) (c : ℕ) (parts : List Text)
    → any_in p (put_first c parts) ≡ (p c || any_in p parts)
any_in-put_first p c [] = ground arith
any_in-put_first p c (part ∷ parts) = ground arith

pub any_of-split :
    (p : ℕ → Bool) (x : ℕ) (s : Text)
    → p x ≡ false
    → any_in p (split x s) ≡ false
    → any_of p s ≡ false
unfolding split
any_of-split p x [] n h = refl
any_of-split p x (c ∷ cs) n h = elim (Bool-cases (c == x)) [
  | inl e ↦ let same = ap p (equal c x e) in ground (arith, any_of-split p x cs n)
  | inr e ↦ ground (arith, any_in-put_first p c (split x cs), any_of-split p x cs n)
]
  where
    equal : (a b : ℕ) → (a == b) ≡ true → a ≡ b
    equal a b q = ground arith
