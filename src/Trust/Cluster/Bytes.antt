-- ===== src/Trust/Cluster/Bytes.antt =====
-- The key file as clusterCAsToBytes writes it, read back by nonEmptyLines.
use ziti_ssh.Prelude.{◌≡◌, refl, ap, ◌∙◌, false, List, [], ◌∷◌, ◌++◌, arith, All, append_assoc}
use ziti_ssh.Text.{Text, text_eq, is_empty, Lacks}
use ziti_ssh.Text.Split.{split, split_word-append}
use ziti_ssh.Text.Trim.{trim_space, trim_left, trim_right, is_space}
use ziti_ssh.Trust.Keys.{non_empty_lines, trimmed_lines}
use ziti_ssh.Trust.Keys.Sorting.{occurrences}
use ziti_ssh.Trust.Cluster.{ClusterCa, lines_of, cluster_cas_to_bytes}

-- One line of a key file, with its end.
abbrev pub IsLine : Text → Type 0
IsLine l =
    (w : Text) × ((l ≡ w ++ b'\n' ∷ []) × Lacks b'\n' w × (trim_space w ≡ w) × (is_empty w ≡ false))

trimmed_lines-cons :
    (w : Text) (ls : List Text)
    → trim_space w ≡ w
    → is_empty w ≡ false
    → trimmed_lines (w ∷ ls) ≡ w ∷ trimmed_lines ls
unfolding trimmed_lines
trimmed_lines-cons w ls e ne = ground (arith, e, ap is_empty e, ne)

append_same : (w z : Text) → text_eq (w ++ b'\n' ∷ []) (z ++ b'\n' ∷ []) ≡ text_eq w z
append_same [] [] = ground arith
append_same [] (d ∷ []) = ground arith
append_same [] (d ∷ e ∷ z) = ground arith
append_same (c ∷ []) [] = ground arith
append_same (c ∷ e ∷ w) [] = ground arith
append_same (c ∷ w) (d ∷ z) = ground (arith, append_same w z)

occurrences-cons_same :
    (l w z : Text) (ls ws : List Text)
    → l ≡ w ++ b'\n' ∷ []
    → occurrences z ws ≡ occurrences (z ++ b'\n' ∷ []) ls
    → occurrences z (w ∷ ws) ≡ occurrences (z ++ b'\n' ∷ []) (l ∷ ls)
unfolding occurrences
occurrences-cons_same l w z ls ws e same = ground (arith, e, same, append_same w z)

-- The lines of the file are the keys.
pub occurrences-cluster_cas_to_bytes :
    (cas : List ClusterCa) (z : Text)
    → All IsLine (lines_of cas)
    → occurrences z (non_empty_lines (cluster_cas_to_bytes cas))
      ≡ occurrences (z ++ b'\n' ∷ []) (lines_of cas)
unfolding lines_of non_empty_lines cluster_cas_to_bytes
occurrences-cluster_cas_to_bytes [] z h =
    unfold occurrences split trimmed_lines trim_space trim_left trim_right is_space in refl
occurrences-cluster_cas_to_bytes (ca ∷ cas) z ((w, line), h) =
    let text = cluster_cas_to_bytes cas in
    let file : ca.authorized_key ++ text ≡ w ++ b'\n' ∷ text =
      ap (λ l. l ++ text) line.0 ∙ append_assoc w (b'\n' ∷ []) text in
    let read : non_empty_lines (ca.authorized_key ++ text) ≡ w ∷ non_empty_lines text =
      ap non_empty_lines file
      ∙ ap trimmed_lines (split_word-append b'\n' w text line.1)
      ∙ trimmed_lines-cons w (split b'\n' text) line.2 line.3 in
    ap (occurrences z) read
    ∙ occurrences-cons_same ca.authorized_key w z (lines_of cas) (non_empty_lines text) line.0
        (occurrences-cluster_cas_to_bytes cas z h)
