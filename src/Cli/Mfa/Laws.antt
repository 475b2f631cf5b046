-- ===== src/Cli/Mfa/Laws.antt =====
-- Which code the loop of readMFACode finds, and when it ends.
use ziti_ssh.Prelude.{
  true, ℕ, zero, suc, ◌<◌, ◌≡◌, ◌⊎◌, inl, inr, refl, ap, sym, ◌∙◌, false, List, [], ◌∷◌, ◌++◌,
  if◌then◌else◌, Option, none, some, take, drop, length, arith, Option-cases, append-nil,
  append_assoc, subst,
}
use mathlib.Core.Option
use ziti_ssh.Text.{Text, is_empty, index_byte, Lacks, index_byte-split}
use ziti_ssh.Text.Split.{split, split_word, split_word-append}
use ziti_ssh.Text.Trim.{trim_space, trim_space-newline}
use ziti_ssh.Cli.Mfa.{read_string, read_code_from, read_mfa_code}

-- all that is read
abbrev pub concat : {A : Type 0} → List (List A) → List A
concat [] = []
concat (c ∷ cs) = c ++ concat cs

-- The first line that is not blank, trimmed.
unfoldable pub first_code : List Text → Option Text
first_code [] = none
first_code (line ∷ lines) =
    let rest = first_code lines in
    if is_empty (trim_space line) then rest else some (trim_space line)

-- What one read of a line takes from a text, and what it leaves.
abbrev line_at : Text → Option ℕ → Text × Text
line_at t none = (t, [])
line_at t (some i) = (take (suc i) t, drop (suc i) t)

abbrev line_of : Text → Text × Text
line_of t = line_at t (index_byte t b'\n')

index_byte_early :
    (buffer t : Text) (d i : ℕ)
    → index_byte buffer d ≡ some i
    → (index_byte (buffer ++ t) d ≡ some i)
      × (take (suc i) (buffer ++ t) ≡ take (suc i) buffer)
      × (drop (suc i) (buffer ++ t) ≡ drop (suc i) buffer ++ t)
unfolding index_byte
index_byte_early [] t d i h = cc
index_byte_early (c ∷ buffer) t d zero h = ground (arith, h)
index_byte_early (c ∷ buffer) t d (suc i) h = ground (arith, h, index_byte_early buffer t d i)

-- The reads that come in blocks give the line that the whole text gives.
read_string-line_of :
    (buffer : Text) (chunks : List Text)
    → let r = read_string buffer chunks in
      let whole = line_of (buffer ++ concat chunks) in
      (r.0 ≡ whole.0) × (r.1 ++ concat r.2 ≡ whole.1)
unfolding read_string
read_string-line_of buffer [] = elim (Option-cases (index_byte buffer b'\n')) [
  | inl e ↦ ground (arith, e, append-nil buffer)
  | inr (i, e) ↦ ground (arith, e, append-nil buffer, append-nil (drop (suc i) buffer))
]
read_string-line_of buffer (chunk ∷ chunks) = elim (Option-cases (index_byte buffer b'\n')) [
  | inl e ↦ ground (
    arith,
    e,
    read_string-line_of (buffer ++ chunk) chunks,
    append_assoc buffer chunk (concat chunks),
  )
  | inr (i, e) ↦ ground (arith, e, index_byte_early buffer (chunk ++ concat chunks) b'\n' i e)
]

index_byte_none-Lacks : (t : Text) (d : ℕ) → index_byte t d ≡ none → Lacks d t
unfolding index_byte
index_byte_none-Lacks [] d h = tt
index_byte_none-Lacks (c ∷ t) d h = ground (arith, h, index_byte_none-Lacks t d)

take_through : (t : Text) (d i : ℕ) → index_byte t d ≡ some i → take (suc i) t ≡ take i t ++ d ∷ []
unfolding index_byte
take_through [] d i h = cc
take_through (c ∷ t) d zero h = ground (arith, h)
take_through (c ∷ t) d (suc i) h = ground (arith, h, take_through t d i)

blank_line : first_code (split b'\n' []) ≡ none
unfolding first_code split trim_space
blank_line = refl

first_code_one :
    (t : Text)
    → first_code (t ∷ []) ≡ (if is_empty (trim_space t) then none else some (trim_space t))
unfolding first_code
first_code_one t = refl

first_code_cons :
    (t : Text) (ts : List Text)
    → first_code (t ∷ ts) ≡ (if is_empty (trim_space t) then first_code ts else some (trim_space t))
unfolding first_code
first_code_cons t ts = refl

line_of-first_code :
    (t : Text)
    → first_code (split b'\n' t) ≡ (
        if is_empty (trim_space (line_of t).0)
        then first_code (split b'\n' (line_of t).1)
        else some (trim_space (line_of t).0))
line_of-first_code t = elim (Option-cases (index_byte t b'\n')) [
  | inl e ↦
      ground (
        arith,
        e,
        split_word b'\n' t (index_byte_none-Lacks t b'\n' e),
        first_code_one t,
        blank_line,
      )
  | inr (i, e) ↦
      let (parts, lacks) = index_byte-split t b'\n' i e in
      let whole : split b'\n' t ≡ take i t ∷ split b'\n' (drop (suc i) t) =
        ap (split b'\n') parts ∙ split_word-append b'\n' (take i t) (drop (suc i) t) lacks in
      let same : trim_space (take (suc i) t) ≡ trim_space (take i t) =
        ap trim_space (take_through t b'\n' i e) ∙ trim_space-newline (take i t) in
      ground (arith, e, whole, same, first_code_cons (take i t) (split b'\n' (drop (suc i) t)))
]

drop_shorter : (i : ℕ) (t : Text) → (t ≡ []) ⊎ (length (drop (suc i) t) < length t)
drop_shorter i [] = inl refl
drop_shorter zero (c ∷ t) = inr (omega arith)
drop_shorter (suc i) (c ∷ t) = elim (drop_shorter i t) [
  | inl e ↦ inr (rw e (omega arith))
  | inr h ↦ inr (omega arith)
]

line_of_shorter : (t : Text) → (t ≡ []) ⊎ (length (line_of t).1 < length t)
line_of_shorter [] = inl refl
line_of_shorter (c ∷ t) = elim (Option-cases (index_byte (c ∷ t) b'\n')) [
  | inl e ↦ inr (ground (arith, e))
  | inr (i, e) ↦
      subst (λ o. (c ∷ t ≡ []) ⊎ (length (line_at (c ∷ t) o).1 < length (c ∷ t))) (sym e)
        (drop_shorter i (c ∷ t))
]

abbrev pub code_of : Option (Text × List Text) → Option Text
code_of = Option.map λ r. r.0

read_code_from-none :
    (fuel : ℕ) (buffer : Text) (chunks : List Text)
    → first_code (split b'\n' (buffer ++ concat chunks)) ≡ none
    → read_code_from fuel false buffer chunks ≡ none
unfolding read_code_from
read_code_from-none zero buffer chunks h = refl
read_code_from-none (suc fuel) buffer chunks h =
    let (line, buffer', chunks') = read_string buffer chunks in
    let same = read_string-line_of buffer chunks in
    ground (
      arith,
      h,
      same,
      ap trim_space same.0,
      ap (λ t. first_code (split b'\n' t)) same.1,
      line_of-first_code (buffer ++ concat chunks),
      read_code_from-none fuel buffer' chunks',
    )

read_code_from-some :
    (fuel : ℕ) (buffer : Text) (chunks : List Text) (code : Text)
    → first_code (split b'\n' (buffer ++ concat chunks)) ≡ some code
    → length (buffer ++ concat chunks) < fuel
    → code_of (read_code_from fuel false buffer chunks) ≡ some code
unfolding read_code_from
read_code_from-some zero buffer chunks code h k = absurd (omega arith)
read_code_from-some (suc fuel) buffer chunks code h k =
    let (line, buffer', chunks') = read_string buffer chunks in
    let t = buffer ++ concat chunks in
    let same = read_string-line_of buffer chunks in
    elim (line_of_shorter t) [
      | inl e ↦ absurd (ground (arith, h, ap (λ x. first_code (split b'\n' x)) e, blank_line))
      | inr shorter ↦ ground (
        arith,
        h,
        ap trim_space same.0,
        ap (λ x. first_code (split b'\n' x)) same.1,
        ap (λ (x : Text). length x) same.1,
        line_of-first_code t,
        read_code_from-some fuel buffer' chunks' code,
      )
    ]

-- The first line, trimmed, is that of the text up to its first line end.
first_line-line_of :
    (t w : Text) (ws : List Text) → split b'\n' t ≡ w ∷ ws → trim_space (line_of t).0 ≡ trim_space w
first_line-line_of t w ws h = elim (Option-cases (index_byte t b'\n')) [
  | inl e ↦ ground (arith, e, h, split_word b'\n' t (index_byte_none-Lacks t b'\n' e))
  | inr (i, e) ↦
      let (parts, lacks) = index_byte-split t b'\n' i e in
      let whole : split b'\n' t ≡ take i t ∷ split b'\n' (drop (suc i) t) =
        ap (split b'\n') parts ∙ split_word-append b'\n' (take i t) (drop (suc i) t) lacks in
      let same : trim_space (take (suc i) t) ≡ trim_space (take i t) =
        ap trim_space (take_through t b'\n' i e) ∙ trim_space-newline (take i t) in
      ground (arith, e, h, whole, same)
]

-- An empty code is allowed: the first line is taken as it is.
read_code_from-first :
    (fuel : ℕ) (buffer : Text) (chunks : List Text) (w : Text) (ws : List Text)
    → split b'\n' (buffer ++ concat chunks) ≡ w ∷ ws
    → 0 < fuel
    → code_of (read_code_from fuel true buffer chunks) ≡ some (trim_space w)
unfolding read_code_from
read_code_from-first zero buffer chunks w ws h k = absurd (omega arith)
read_code_from-first (suc fuel) buffer chunks w ws h k =
    let same = read_string-line_of buffer chunks in
    ground (arith, ap trim_space same.0, first_line-line_of (buffer ++ concat chunks) w ws h)

-- However the input comes in blocks: where no empty code is allowed, readMFACode finds the first line
-- that is not blank, and if there is none, it reads on for ever after the end of the input. Where an
-- empty code is allowed, it takes the first line, blank or not.
pub read_mfa_code_lem :
    (chunks : List Text)
    → let found = first_code (split b'\n' (concat chunks)) in
      ((code : Text) (fuel : ℕ)
        → found ≡ some code
        → length (concat chunks) < fuel
        → code_of (read_mfa_code fuel false chunks) ≡ some code)
      × (found ≡ none → (fuel : ℕ) → read_mfa_code fuel false chunks ≡ none)
      × ((line : Text) (lines : List Text) (fuel : ℕ)
          → split b'\n' (concat chunks) ≡ line ∷ lines
          → 0 < fuel
          → code_of (read_mfa_code fuel true chunks) ≡ some (trim_space line))
unfolding read_mfa_code
read_mfa_code_lem chunks = (
  (λ code fuel h k. read_code_from-some fuel [] chunks code h k),
  (λ h fuel. read_code_from-none fuel [] chunks h),
  (λ line lines fuel h k. read_code_from-first fuel [] chunks line lines h k),
)

read_string_drained : (buffer : Text) → (read_string buffer []).2 ≡ []
unfolding read_string
read_string_drained buffer = ground (arith)

read_string_block : (block : Text) → (read_string [] (block ∷ [])).2 ≡ []
unfolding read_string index_byte
read_string_block block = ground arith

drained_rest :
    (fuel : ℕ) (buffer : Text) (chunks : List Text) (code : Text) (rest : List Text)
    → (read_string buffer chunks).2 ≡ []
    → read_code_from fuel false buffer chunks ≡ some (code, rest)
    → rest ≡ []
unfolding read_code_from
drained_rest zero buffer chunks code rest e h = cc
drained_rest (suc fuel) buffer chunks code rest e h =
    let (line, buffer', chunks') = read_string buffer chunks in
    ground (
      arith,
      e,
      h,
      ap (λ cs. (read_string buffer' cs).2) e,
      read_string_drained buffer',
      drained_rest fuel buffer' chunks' code rest,
    )

-- A code that is read from a block is the only one: what follows it in the block is lost, so that a
-- second call finds no code if no block follows.
pub read_mfa_code_block :
    (block code : Text) (rest : List Text) (fuel : ℕ)
    → read_mfa_code fuel false (block ∷ []) ≡ some (code, rest)
    → (again : ℕ) → read_mfa_code again false rest ≡ none
unfolding read_mfa_code
read_mfa_code_block block code rest fuel h again =
    let empty = drained_rest fuel [] (block ∷ []) code rest (read_string_block block) h in
    subst (λ r. read_code_from again false [] r ≡ none) (sym empty)
      (read_code_from-none again [] [] blank_line)
