-- ===== src/Trust/Keys/Sorting.antt =====
-- The sort of the key lines: what it keeps, and that sorted lists are equal if they have the same
-- lines.
use ziti_ssh.Prelude.{
  ℕ, suc, ◌+◌, ◌<◌, ◌≡◌, refl, sym, true, false, List, [], ◌∷◌, if◌then◌else◌, arith, All, length,
}
use ziti_ssh.Text.{Text, text_eq, text_eq_refl}
use ziti_ssh.Trust.Keys.{text_lt, sink, sort_onto, reverse_onto}

-- How often a line occurs.
unfoldable pub occurrences : Text → List Text → ℕ
occurrences x [] = 0
occurrences x (y ∷ ys) = let rest = occurrences x ys in if text_eq y x then suc rest else rest

text_lt-same : (s t : Text) → text_lt s t ≡ false → text_lt t s ≡ false → s ≡ t
unfolding text_lt
text_lt-same [] [] h g = refl
text_lt-same [] (d ∷ t) h g = cc
text_lt-same (c ∷ s) [] h g = cc
text_lt-same (c ∷ s) (d ∷ t) h g = ground (arith, h, g, text_lt-same s t)

text_lt_asym : (s t : Text) → text_lt s t ≡ true → text_lt t s ≡ false
unfolding text_lt
text_lt_asym [] [] h = refl
text_lt_asym [] (d ∷ t) h = refl
text_lt_asym (c ∷ s) [] h = cc
text_lt_asym (c ∷ s) (d ∷ t) h = ground (arith, h, text_lt_asym s t)

text_ge_trans : (s t r : Text) → text_lt s t ≡ false → text_lt t r ≡ false → text_lt s r ≡ false
unfolding text_lt
text_ge_trans [] [] r h g = g
text_ge_trans [] (d ∷ t) r h g = cc
text_ge_trans (c ∷ s) t [] h g = refl
text_ge_trans (c ∷ s) [] (e ∷ r) h g = cc
text_ge_trans (c ∷ s) (d ∷ t) (e ∷ r) h g = ground (arith, h, g, text_ge_trans s t r)

-- No element is less than one that comes after it.
abbrev Descending : List Text → Type 0
Descending [] = Unit
Descending (x ∷ xs) = All (λ y. text_lt x y ≡ false) xs × Descending xs

All-sink :
    (z x : Text) (ys : List Text)
    → text_lt z x ≡ false
    → All (λ y. text_lt z y ≡ false) ys
    → All (λ y. text_lt z y ≡ false) (sink x ys)
unfolding sink
All-sink z x [] h g = (h, tt)
All-sink z x (y ∷ ys) h g = ground (arith, h, g, All-sink z x ys h g.1)

All-ge_trans :
    (x y : Text) (ys : List Text)
    → text_lt x y ≡ false
    → All (λ z. text_lt y z ≡ false) ys
    → All (λ z. text_lt x z ≡ false) ys
All-ge_trans x y [] h g = tt
All-ge_trans x y (z ∷ ys) h g = (text_ge_trans x y z h g.0, All-ge_trans x y ys h g.1)

sink-Descending : (x : Text) (ys : List Text) → Descending ys → Descending (sink x ys)
unfolding sink
sink-Descending x [] h = (tt, tt)
sink-Descending x (y ∷ ys) h =
    ground
      (arith, h, sink-Descending x ys h.1, text_lt_asym x y, All-sink y x ys, All-ge_trans x y ys)

pub sort_onto-Descending : (done xs : List Text) → Descending done → Descending (sort_onto done xs)
unfolding sort_onto
sort_onto-Descending done [] h = h
sort_onto-Descending done (x ∷ xs) h =
    sort_onto-Descending (sink x done) xs (sink-Descending x done h)

occurrences-sink :
    (z x : Text) (ys : List Text) → occurrences z (sink x ys) ≡ occurrences z (x ∷ ys)
unfolding occurrences sink
occurrences-sink z x [] = refl
occurrences-sink z x (y ∷ ys) = ground (arith, occurrences-sink z x ys)

pub occurrences-sort_onto :
    (z : Text) (done xs : List Text)
    → occurrences z (sort_onto done xs) ≡ occurrences z done + occurrences z xs
unfolding occurrences sort_onto
occurrences-sort_onto z done [] = ground arith
occurrences-sort_onto z done (x ∷ xs) =
    ground (arith, occurrences-sort_onto z (sink x done) xs, occurrences-sink z x done)

pub occurrences-reverse_onto :
    (z : Text) (done xs : List Text)
    → occurrences z (reverse_onto done xs) ≡ occurrences z done + occurrences z xs
unfolding occurrences reverse_onto
occurrences-reverse_onto z done [] = ground arith
occurrences-reverse_onto z done (x ∷ xs) = ground (arith, occurrences-reverse_onto z (x ∷ done) xs)

length-sink : (x : Text) (ys : List Text) → length (sink x ys) ≡ suc (length ys)
unfolding sink
length-sink x [] = refl
length-sink x (y ∷ ys) = ground (arith, length-sink x ys)

pub length-sort_onto : (done xs : List Text) → length (sort_onto done xs) ≡ length done + length xs
unfolding sort_onto
length-sort_onto done [] = ground arith
length-sort_onto done (x ∷ xs) =
    ground (arith, length-sort_onto (sink x done) xs, length-sink x done)

-- A line that occurs after x in a descending list is not greater than x.
occurring_le :
    (x z : Text) (xs : List Text)
    → All (λ y. text_lt x y ≡ false) xs
    → 0 < occurrences z xs
    → text_lt x z ≡ false
unfolding occurrences
occurring_le x z [] h pos = ground (arith, pos)
occurring_le x z (y ∷ ys) h pos = ground (arith, h, pos, occurring_le x z ys)

text_lt_irrefl : (s : Text) → text_lt s s ≡ false
unfolding text_lt
text_lt_irrefl [] = refl
text_lt_irrefl (c ∷ s) = ground (arith, text_lt_irrefl s)

occurs_head : (y : Text) (ys : List Text) → 0 < occurrences y (y ∷ ys)
unfolding occurrences
occurs_head y ys = ground (arith, text_eq_refl y)

head_le :
    (x y : Text) (xs ys : List Text)
    → Descending (x ∷ xs)
    → occurrences y (x ∷ xs) ≡ occurrences y (y ∷ ys)
    → text_lt x y ≡ false
head_le x y xs ys h same =
    occurring_le x y (x ∷ xs) (text_lt_irrefl x, h.0) (ground (arith, same, occurs_head y ys))

occurrences-tail :
    (z x y : Text) (xs ys : List Text)
    → x ≡ y
    → occurrences z (x ∷ xs) ≡ occurrences z (y ∷ ys)
    → occurrences z xs ≡ occurrences z ys
unfolding occurrences
occurrences-tail z x y xs ys e same = ground (arith, e, same)

pub Descending-unique :
    (xs ys : List Text)
    → Descending xs
    → Descending ys
    → ((z : Text) → occurrences z xs ≡ occurrences z ys)
    → xs ≡ ys
unfolding occurrences
Descending-unique [] [] h g same = refl
Descending-unique [] (y ∷ ys) h g same = ground (arith, same y, text_eq_refl y)
Descending-unique (x ∷ xs) [] h g same = ground (arith, same x, text_eq_refl x)
Descending-unique (x ∷ xs) (y ∷ ys) h g same =
    let e = text_lt-same x y (head_le x y xs ys h (same y)) (head_le y x ys xs g (sym (same x))) in
    ground
      (arith, e, Descending-unique xs ys h.1 g.1 (λ z. occurrences-tail z x y xs ys e (same z)))
