-- ===== src/Client/Progress.antt =====
-- formatBytes, formatDuration and the progress writer of client/sftp.go. A size is an int64 that is
-- not negative; the speed, which is a float64, is left out, and so is the text of a fraction.
use ziti_ssh.Prelude.{
  ℕ, zero, suc, ◌+◌, ◌-◌, ◌*◌, ◌/◌, ◌%◌, ◌^◌, ◌≤◌, ◌<◌, ◌≡◌, Bool, true, false, [], ◌∷◌, ◌++◌,
  if◌then◌else◌, Option, none, some, ltb, leb, length, drop, arith, Bool-cases, inl, inr,
}
use mathlib.Core.Option
use ziti_ssh.Text.{Text, codes}

-- A size in bytes, or as a number of units with the unit's letter.
pub data Shown : Type 0 where
  plain : ℕ → Shown
  scaled : (size div letter : ℕ) → Shown

abbrev pub unit_letters : Text
unit_letters = codes "KMGTPE"

-- "KMGTPE"[i], which panics out of range
abbrev pub letter_at : ℕ → Text → Option ℕ
letter_at i [] = none
letter_at zero (c ∷ s) = some c
letter_at (suc i) (c ∷ s) = letter_at i s

-- the loop, with the turns that it may take; `none` has not ended
unfoldable pub scale_from : ℕ → (n div exp : ℕ) → Option (ℕ × ℕ)
scale_from zero n div exp = none
scale_from (suc turns) n div exp =
    let rest = scale_from turns (n / 1024) (div * 1024 % 2 ^ 64) (exp + 1) in
    if leb 1024 n then rest else some (div, exp)

-- eight turns are more than an int64 takes
unfoldable pub format_bytes : ℕ → Option Shown
unfolding scale_from
format_bytes b = if ltb b 1024 then some (plain b) else elim (scale_from 8 (b / 1024) 1024 0) [
  | none ↦ none
  | some (div, exp) ↦ Option.map (scaled b div) (letter_at exp unit_letters)
]

-- hours, minutes and seconds, or the last two
pub data Clock : Type 0 where
  hours : (h m s : ℕ) → Clock
  minutes : (m s : ℕ) → Clock

-- of a whole number of seconds, which the caller passes
unfoldable pub format_duration : (negative : Bool) → ℕ → Clock
format_duration negative d =
    let seconds = (if negative then 0 else d) in
    let h = seconds / 3600 in
    let m = seconds / 60 % 60 in
    let s = seconds % 60 in if ltb 0 h then hours h m s else minutes m s

-- the name in at most thirty bytes
unfoldable pub short_name : Text → Text
short_name name = if ltb 30 (length name) then codes "..." ++ drop (length name - 27) name else name

-- an int64 of these bits over a positive one, as whether it is below zero, and its size
unfoldable pub signed_quotient : (bits total : ℕ) → Bool × ℕ
signed_quotient bits total =
    if ltb bits (2 ^ 63) then (false, bits / total) else (true, (2 ^ 64 - bits) / total)

-- written * 100 / total, on an int64
unfoldable pub percent : (total written : ℕ) → Bool × ℕ
unfolding signed_quotient
percent total written =
    if ltb 0 total then signed_quotient (written * 100 % 2 ^ 64) total else (false, 0)

-- The progress writer; times are nanoseconds.
pub record ProgressWriter : Type 0 where
  pub name : Text
  pub total : ℕ
  pub written : ℕ
  pub last_print : ℕ
  pub start : Option ℕ

-- the start, once it is set
unfoldable pub started : Option ℕ → ℕ → ℕ
started none now = now
started (some t) now = t

-- Write, with what the inner writer took: the percentage, if a line is printed
unfoldable pub write_progress : ℕ → ℕ → ProgressWriter → ProgressWriter × Option (Bool × ℕ)
write_progress n now p =
    let p' = record p { written = p.written + n; start = some (started p.start now) } in
    if leb 500_000_000 (now - p.last_print)
    then (record p' { last_print = now }, some (percent p.total (p.written + n)))
    else (p', none)

-- What a clock shows, in seconds: fewer than sixty seconds and minutes, and hours if there are any.
abbrev pub Shows : ℕ → Clock → Type 0
Shows d (hours h m s) = (h * 3600 + m * 60 + s ≡ d) × (m < 60) × (s < 60) × (0 < h)
Shows d (minutes m s) = (m * 60 + s ≡ d) × (m < 60) × (s < 60)

-- A duration is shown in full; one that is negative is shown as zero.
pub format_duration-Shows :
    (negative : Bool) (d : ℕ) → Shows (if negative then 0 else d) (format_duration negative d)
unfolding format_duration
format_duration-Shows true d = omega arith
format_duration-Shows false d = elim (Bool-cases (ltb 0 (d / 3600))) [
  | inl e ↦ rw e (ground arith)
  | inr e ↦ rw e (ground arith)
]

length-drop : (n : ℕ) (s : Text) → length (drop n s) ≡ length s - n
length-drop zero s = omega arith
length-drop (suc n) [] = omega arith
length-drop (suc n) (c ∷ s) = omega (arith, length-drop n s)

short_name_le : (name : Text) → length (short_name name) ≤ 30
unfolding short_name
short_name_le name = ground (arith, length-drop (length name - 27) name)

quotient_le : (a t : ℕ) → 0 < t → a ≤ 100 * t → a / t ≤ 100
quotient_le a t h k = grind arith

-- A file that is written up to its size is shown with a percentage from zero to a hundred, if a hundred times its size fits into an int64; and a shown name has thirty
-- bytes at most.
pub percent_bounds :
    (total written : ℕ) (name : Text)
    → written ≤ total
    → total * 100 < 2 ^ 63
    → ((percent total written).0 ≡ false)
      × ((percent total written).1 ≤ 100)
      × (length (short_name name) ≤ 30)
unfolding percent
percent_bounds total written name h k =
    let small : written * 100 % 2 ^ 64 ≡ written * 100 = omega arith in
    (
      ground (arith, small),
      ground (arith, small, quotient_le (written * 100 % 2 ^ 64) total),
      short_name_le name,
    )
