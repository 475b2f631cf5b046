-- ===== src/Cli/Mfa.antt =====
-- readMFACode, mfaTotpListener and the mfa commands of cmd/ziti-ssh/main.go. The standard input is
-- what each read of it gives: a line at a terminal, a block from a pipe. The calls of the SDK are inputs.
pub mod Laws
pub mod Rows
use ziti_ssh.Prelude.{
  ℕ, zero, suc, ◌+◌, ◌≡◌, Bool, true, false, not, ◌||◌, List, [], ◌∷◌, ◌++◌, if◌then◌else◌, Option,
  none, some, Result, ok, err, take, drop, ltb, length, map,
}
use ziti_ssh.Text.{Text, codes, is_empty, index_byte}
use ziti_ssh.Text.Trim.{trim_space}

-- bufio.Reader.ReadString('\n') with what is in the buffer, whose error is dropped: the line, the
-- buffer, and the reads that are left.
unfoldable pub read_string : Text → List Text → Text × Text × List Text
read_string buffer [] = elim (index_byte buffer b'\n') [
  | none ↦ (buffer, [], [])
  | some i ↦ (take (suc i) buffer, drop (suc i) buffer, [])
]
read_string buffer (chunk ∷ chunks) = elim (index_byte buffer b'\n') [
  | none ↦ read_string (buffer ++ chunk) chunks
  | some i ↦ (take (suc i) buffer, drop (suc i) buffer, chunk ∷ chunks)
]

-- The loop of readMFACode; `none` has not ended after that many lines. What is left in the buffer
-- at the end is lost, since the next call makes a new reader.
unfoldable pub read_code_from : ℕ → Bool → Text → List Text → Option (Text × List Text)
read_code_from zero allow_empty buffer chunks = none
read_code_from (suc fuel) allow_empty buffer chunks =
    let (line, buffer', chunks') = read_string buffer chunks in
    let again = read_code_from fuel allow_empty buffer' chunks' in
    if not (is_empty (trim_space line)) || allow_empty
    then some (trim_space line, chunks')
    else again

unfoldable pub read_mfa_code : ℕ → Bool → List Text → Option (Text × List Text)
read_mfa_code fuel allow_empty chunks = read_code_from fuel allow_empty [] chunks

-- mfaTotpListener, with the answers of the response function: the codes that it was given
unfoldable pub totp_codes : ℕ → ℕ → (Text → Bool) → List Text → Option (List Text)
totp_codes fuel zero accepts chunks = none
totp_codes fuel (suc turns) accepts chunks = elim (read_mfa_code fuel false chunks) [
  | none ↦ none
  | some (code, chunks') ↦
      if accepts code
      then some (code ∷ [])
      else elim (totp_codes fuel turns accepts chunks') [ none ↦ none | some cs ↦ some (code ∷ cs) ]
]

-- The recovery codes, in rows of five: the loop takes a row while there are codes.
unfoldable pub recovery_rows : ℕ → List Text → List (List Text)
recovery_rows fuel [] = []
recovery_rows zero (c ∷ cs) = []
recovery_rows (suc fuel) (c ∷ cs) = take 5 (c ∷ cs) ∷ recovery_rows fuel (drop 5 (c ∷ cs))

pub data MfaError : Type 0 where
  no_context not_authenticated not_enrolled bad_url not_verified not_removed : MfaError

-- What the SDK answers: the details of the enrolment are the secret and the recovery codes.
pub record MfaCalls : Type 0 where
  pub context_ok : Bool
  pub authenticated : Bool
  pub details : Option (Text × List Text)
  pub url_ok : Text → Bool
  pub verifies : Text → Bool
  pub removes : Text → Bool

-- the start of the three commands
unfoldable pub login : MfaCalls → Result MfaError (Unit {0})
login c =
    if not c.context_ok
    then err no_context
    else if not c.authenticated
    then err not_authenticated
    else ok tt

-- runMFAEnable, up to the rows that it prints; `none` still reads
unfoldable pub run_mfa_enable :
    ℕ → MfaCalls → List Text → Option (Result MfaError (List (List Text)))
run_mfa_enable fuel c chunks = elim (login c) [
  | err e ↦ some (err e)
  | ok u ↦ elim c.details [
    | none ↦ some (err not_enrolled)
    | some (url, recovery_codes) ↦
        if not (c.url_ok url) then some (err bad_url) else elim (read_mfa_code fuel false chunks) [
          | none ↦ none
          | some (code, rest) ↦ some (
              if c.verifies code
              then ok (recovery_rows (length recovery_codes) recovery_codes)
              else err not_verified)
        ]
  ]
]

-- runMFAVerify
unfoldable pub run_mfa_verify : MfaCalls → Result MfaError (Unit {0})
run_mfa_verify c = login c

-- runMFARemove, where the SDK reports the full authentication: an empty code is sent too
unfoldable pub run_mfa_remove : ℕ → MfaCalls → List Text → Option (Result MfaError (Unit {0}))
run_mfa_remove fuel c chunks = elim (login c) [
  | err e ↦ some (err e)
  | ok u ↦ elim (read_mfa_code fuel true chunks) [
    | none ↦ none
    | some (code, rest) ↦ some (if c.removes code then ok tt else err not_removed)
  ]
]
