-- ===== src/Trust/Keys/Sets.antt =====
-- What the comparison of two key files decides.
use ziti_ssh.Prelude.{◌+◌, ◌≡◌, ◌↔◌, refl, sym, ap, ◌∙◌, true, List, [], ◌∷◌, arith, length}
use ziti_ssh.Text.{Text, text_eq_refl}
use ziti_ssh.Trust.Keys.{
  sort_onto, reverse_onto, sort_strings, non_empty_lines, same_lines, ssh_pub_key_sets_equal,
}
use ziti_ssh.Trust.Keys.Sorting.{
  occurrences, Descending-unique, sort_onto-Descending, occurrences-sort_onto,
  occurrences-reverse_onto, length-sort_onto,
}

occurrences-sort_strings :
    (z : Text) (xs : List Text) → occurrences z (sort_strings xs) ≡ occurrences z xs
unfolding sort_strings occurrences
occurrences-sort_strings z xs =
    ground (arith, occurrences-reverse_onto z [] (sort_onto [] xs), occurrences-sort_onto z [] xs)

same_lines_refl : (xs : List Text) → same_lines xs xs ≡ true
unfolding same_lines
same_lines_refl [] = refl
same_lines_refl (x ∷ xs) = ground (arith, text_eq_refl x, same_lines_refl xs)

same_lines_same : (xs ys : List Text) → length xs ≡ length ys → same_lines xs ys ≡ true → xs ≡ ys
unfolding same_lines
same_lines_same [] [] e h = refl
same_lines_same [] (y ∷ ys) e h = ground (arith, e)
same_lines_same (x ∷ xs) [] e h = cc
same_lines_same (x ∷ xs) (y ∷ ys) e h = ground (arith, h, same_lines_same xs ys (ground (arith, e)))

length-reverse_onto :
    (done xs : List Text) → length (reverse_onto done xs) ≡ length done + length xs
unfolding reverse_onto
length-reverse_onto done [] = ground arith
length-reverse_onto done (x ∷ xs) = ground (arith, length-reverse_onto (x ∷ done) xs)

length-sort_strings : (xs : List Text) → length (sort_strings xs) ≡ length xs
unfolding sort_strings
length-sort_strings xs =
    ground (arith, length-reverse_onto [] (sort_onto [] xs), length-sort_onto [] xs)

pub sorted_same :
    (xs ys : List Text)
    → ((z : Text) → occurrences z xs ≡ occurrences z ys)
    → sort_onto [] xs ≡ sort_onto [] ys
unfolding occurrences
sorted_same xs ys same =
    Descending-unique (sort_onto [] xs) (sort_onto [] ys) (sort_onto-Descending [] xs tt)
      (sort_onto-Descending [] ys tt)
      (λ z. ground (arith, same z, occurrences-sort_onto z [] xs, occurrences-sort_onto z [] ys))

-- Two key files are equal exactly if every line, trimmed and not empty, occurs in both equally often.
pub ssh_pub_key_sets_equal_iff :
    (a b : Text)
    → (ssh_pub_key_sets_equal a b ≡ true)
      ↔ ((z : Text) → occurrences z (non_empty_lines a) ≡ occurrences z (non_empty_lines b))
unfolding ssh_pub_key_sets_equal
ssh_pub_key_sets_equal_iff a b =
    let xs = non_empty_lines a in
    let ys = non_empty_lines b in
    (
      (λ h z.
          let e : sort_strings xs ≡ sort_strings ys =
            same_lines_same (sort_strings xs) (sort_strings ys)
              (ground (arith, h, length-sort_strings xs, length-sort_strings ys))
              (ground (arith, h)) in
          sym (occurrences-sort_strings z xs)
          ∙ ap (occurrences z) e
          ∙ occurrences-sort_strings z ys),
      (λ same.
          let e = sorted_same xs ys same in
          let f : sort_strings xs ≡ sort_strings ys =
            unfold sort_strings in ap (reverse_onto []) e in
          ground (
            arith,
            f,
            ap length f,
            length-sort_strings xs,
            length-sort_strings ys,
            same_lines_refl (sort_strings ys),
          )),
    )
