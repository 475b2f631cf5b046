-- ===== src/Host/StateFile/RoundTrip.antt =====
-- What was written is what is read.
use ziti_ssh.Prelude.{◌≡◌, refl, ap, false, List, [], ◌∷◌, ◌++◌, map, All, arith}
use ziti_ssh.Text.{Text, codes, is_empty, Lacks}
use ziti_ssh.Text.Split.{split, join, split-join, split-append_end}
use ziti_ssh.Text.Trim.{IsVisible, trim_space_visible}
use ziti_ssh.Host.StateFile.{
  state_content, drop_last_empty, drop_cr, scan_lines, trimmed_names, state_names,
}

-- A name that is not empty and has visible ASCII runes only.
abbrev IsName : Text → Type 0
IsName w = (is_empty w ≡ false) × IsVisible w

visible-Lacks : (w : Text) → IsVisible w → Lacks b'\n' w
visible-Lacks [] h = tt
visible-Lacks (c ∷ w) h = (ground arith, visible-Lacks w h.1)

names-Lacks : (ws : List Text) → All IsName ws → All (Lacks b'\n') ws
names-Lacks [] h = tt
names-Lacks (w ∷ ws) h = (visible-Lacks w h.0.1, names-Lacks ws h.1)

drop_last_empty-append : (ws : List Text) → drop_last_empty (ws ++ [] ∷ []) ≡ ws
unfolding drop_last_empty
drop_last_empty-append [] = refl
drop_last_empty-append (w ∷ []) = refl
drop_last_empty-append (w ∷ v ∷ ws) = ap (◌∷◌ w) (drop_last_empty-append (v ∷ ws))

drop_cr_visible : (w : Text) → IsVisible w → drop_cr w ≡ w
unfolding drop_cr
drop_cr_visible [] h = refl
drop_cr_visible (c ∷ []) h = ground arith
drop_cr_visible (c ∷ d ∷ w) h = ap (◌∷◌ c) (drop_cr_visible (d ∷ w) h.1)

trimmed_names_lem : (ws : List Text) → All IsName ws → trimmed_names (map drop_cr ws) ≡ ws
unfolding trimmed_names
trimmed_names_lem [] h = refl
trimmed_names_lem (w ∷ ws) h =
    rw (drop_cr_visible w h.0.1, trim_space_visible w h.0.1, h.0.0)
      (ap (◌∷◌ w) (trimmed_names_lem ws h.1))

-- The names that are read from the file are those that were written, in their order, if no name is
-- empty and all have visible ASCII runes only.
pub state_names-state_content :
    (ws : List Text) → All IsName ws → state_names (state_content ws) ≡ ws
unfolding state_names state_content scan_lines split
state_names-state_content [] h = refl
state_names-state_content (w ∷ ws) h =
    rw
      (
        split-append_end b'\n' (join (codes "\n") (w ∷ ws)),
        split-join b'\n' w ws (names-Lacks (w ∷ ws) h),
        drop_last_empty-append (w ∷ ws),
      )
      (trimmed_names_lem (w ∷ ws) h)
