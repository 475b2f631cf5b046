-- ===== src/Client/SafeName.antt =====
-- safeName, downloadDir and downloadFile of client/sftp.go: which local paths a remote tree can make the
-- download write. A local path is the list of its parts, from the working directory or the root;
-- filepath.Join adds one part, which safeName has checked to be one.
use ziti_ssh.Prelude.{
  refl, ap, map, ◌⊎◌, subst, ◌≡◌, ◌≢◌, sym, Bool, true, false, not, ◌&&◌, ◌||◌, List, [], ◌∷◌, ◌++◌,
  if◌then◌else◌, arith, All, append_assoc, append-nil, All-append, Bool-cases, inl, inr,
}
use ziti_ssh.Text.{Text, codes, text_eq, contains_any, is_empty, Lacks, text_eq_refl}

-- no error from safeName
unfoldable pub is_safe : Text → Bool
is_safe name =
    not (is_empty name || text_eq name (codes ".") || text_eq name (codes ".."))
    && not (contains_any name (codes "/\\"))

-- What the server shows, in the order of ReadDir, and which calls work along the way.
mutual
  pub data Node : Type 0 where
    -- Open and Stat, MkdirAll, and OpenFile with the copy
    file : (open_ok mkdir_ok write_ok : Bool) → Node
    folder : (stat_ok mkdir_ok list_ok : Bool) → Entries → Node

  pub data Entries : Type 0 where
    no_entry : Entries
    entry : Text → Node → Entries → Entries

abbrev pub LocalPath : Type 0
LocalPath = List Text

-- A call that changes the disk: a directory that is made unless it is there, or a file that is opened
-- to be written.
pub data Change : Type 0 where
  made written : LocalPath → Change

-- The changes, in order, and whether there was no error.
abbrev pub Download : Type 0
Download = List Change × Bool

-- the next part of the download, unless there was an error
unfoldable pub and_then : Download → Download → Download
and_then (changes, ok') next = if ok' then (changes ++ next.0, next.1) else (changes, false)

-- The directories on the way to a path, from the working directory or the root on.
unfoldable pub dirs_above : LocalPath → List LocalPath
dirs_above [] = []
dirs_above (n ∷ path) = [] ∷ map (◌∷◌ n) (dirs_above path)

-- os.MkdirAll: it makes those directories on the way that are missing, and the path itself
unfoldable pub make_all : LocalPath → List Change
make_all path = map made (dirs_above path ++ path ∷ [])

-- os.MkdirAll of the directory that a path is in
unfoldable pub make_above : LocalPath → List Change
make_above path = map made (dirs_above path)

unfoldable mutual
  -- downloadFile, which makes the file's directory first, and downloadDir up to its loop
  pub download_node : LocalPath → Node → Download
  download_node path (file open_ok mkdir_ok write_ok) =
      if not open_ok
      then ([], false)
      else if not mkdir_ok
      then (make_above path, false)
      else (make_above path ++ written path ∷ [], write_ok)
  download_node path (folder stat_ok mkdir_ok list_ok es) =
      let rest = download_entries path es in
      if not stat_ok
      then ([], false)
      else if not mkdir_ok
      then (make_all path, false)
      else if not list_ok
      then (make_all path, false)
      else (make_all path ++ rest.0, rest.1)

  -- the loop of downloadDir
  pub download_entries : LocalPath → Entries → Download
  download_entries path no_entry = ([], true)
  download_entries path (entry name n es) =
      let here = download_node (path ++ name ∷ []) n in
      let rest = download_entries path es in
      if is_safe name then and_then here rest else ([], false)

-- A name that is one part of a path, and neither the directory itself nor the one above it.
abbrev IsPart : Text → Type 0
IsPart n = Lacks b'/' n × Lacks b'\\' n × (n ≢ []) × (n ≢ codes ".") × (n ≢ codes "..")

-- A path that is the target itself, or reached from it by going down.
abbrev pub IsInside : LocalPath → LocalPath → Type 0
IsInside base p = (names : List Text) × (p ≡ base ++ names) × All IsPart names

append-empty : (p rest : LocalPath) → p ++ rest ≡ [] → p ≡ []
append-empty [] rest h = refl
append-empty (n ∷ p) rest h = absurd (ground (arith, h))

text_eq_of : (s t : Text) → s ≡ t → text_eq s t ≡ true
text_eq_of s t e = rw e (text_eq_refl t)

no_separator : (s : Text) → contains_any s (codes "/\\") ≡ false → Lacks b'/' s × Lacks b'\\' s
no_separator [] h = (tt, tt)
no_separator (c ∷ s) h = ground (arith, h, no_separator s)

is_safe-IsPart : (n : Text) → is_safe n ≡ true → IsPart n
unfolding is_safe
is_safe-IsPart n h =
    let lacks = no_separator n (ground (arith, h)) in
    (
      lacks.0,
      lacks.1,
      (λ e. ground (arith, h, e)),
      (λ e. ground (arith, h, text_eq_of n (codes ".") e)),
      (λ e. ground (arith, h, text_eq_of n (codes "..") e)),
    )

-- A directory on the way to the target.
abbrev pub IsAbove : LocalPath → LocalPath → Type 0
IsAbove base p = (rest : List Text) × (base ≡ p ++ rest)

abbrev pub IsOnItsWay : LocalPath → LocalPath → Type 0
IsOnItsWay base p = IsInside base p ⊎ IsAbove base p

below_part :
    (n : Text) (ps : List LocalPath)
    → IsPart n
    → All (IsOnItsWay []) ps
    → All (IsOnItsWay []) (map (◌∷◌ n) ps)
below_part n [] part h = tt
below_part n (p ∷ ps) part h = (
  elim h.0 [
    | inl (names, e, parts) ↦ inl (n ∷ names, ap (◌∷◌ n) e, (part, parts))
    | inr (rest, e) ↦ inl (n ∷ [], ap (◌∷◌ n) (append-empty p rest (sym e)), (part, tt))
  ],
  below_part n ps part h.1,
)

below_name :
    (n : Text) (base : LocalPath) (ps : List LocalPath)
    → All (IsOnItsWay base) ps
    → All (IsOnItsWay (n ∷ base)) (map (◌∷◌ n) ps)
below_name n base [] h = tt
below_name n base (p ∷ ps) h = (
  elim h.0 [
    | inl (names, e, parts) ↦ inl (names, ap (◌∷◌ n) e, parts)
    | inr (rest, e) ↦ inr (rest, ap (◌∷◌ n) e)
  ],
  below_name n base ps h.1,
)

-- The directories on the way to a path inside the target are on the target's way, or inside it.
dirs_above-IsOnItsWay :
    (base names : LocalPath) → All IsPart names → All (IsOnItsWay base) (dirs_above (base ++ names))
unfolding dirs_above
dirs_above-IsOnItsWay [] [] h = tt
dirs_above-IsOnItsWay [] (n ∷ names) h =
    (inr ([], refl), below_part n (dirs_above names) h.0 (dirs_above-IsOnItsWay [] names h.1))
dirs_above-IsOnItsWay (n ∷ base) names h = (
  inr (n ∷ base, refl),
  below_name n base (dirs_above (base ++ names)) (dirs_above-IsOnItsWay base names h),
)

-- What a download may do: write inside the target, and make directories inside it and on the way.
abbrev pub IsAllowed : LocalPath → Change → Type 0
IsAllowed base (made p) = IsOnItsWay base p
IsAllowed base (written p) = IsInside base p

made_all :
    (base : LocalPath) (ps : List LocalPath)
    → All (IsOnItsWay base) ps
    → All (IsAllowed base) (map made ps)
made_all base [] h = tt
made_all base (p ∷ ps) h = (h.0, made_all base ps h.1)

make_all-IsAllowed :
    (base names : LocalPath) → All IsPart names → All (IsAllowed base) (make_all (base ++ names))
unfolding make_all
make_all-IsAllowed base names h =
    made_all base (dirs_above (base ++ names) ++ (base ++ names) ∷ []) (
      All-append (IsOnItsWay base) (dirs_above (base ++ names)) _
        (dirs_above-IsOnItsWay base names h) (inl (names, refl, h), tt))

make_above-IsAllowed :
    (base names : LocalPath) → All IsPart names → All (IsAllowed base) (make_above (base ++ names))
unfolding make_above
make_above-IsAllowed base names h =
    made_all base (dirs_above (base ++ names)) (dirs_above-IsOnItsWay base names h)

file-IsAllowed :
    (open_ok mkdir_ok write_ok : Bool) (base names : LocalPath)
    → All IsPart names
    → All (IsAllowed base) (download_node (base ++ names) (file open_ok mkdir_ok write_ok)).0
unfolding download_node
file-IsAllowed open_ok mkdir_ok write_ok base names h =
    let above = make_above-IsAllowed base names h in
    ground (
      arith,
      above,
      All-append (IsAllowed base) (make_above (base ++ names)) (written (base ++ names) ∷ []) above
          ((names, refl, h), tt),
    )

and_then-All :
    (P : Change → Type 0) (d next : Download) → All P d.0 → All P next.0 → All P (and_then d next).0
unfolding and_then
and_then-All P (ps, true) next h g = All-append P ps next.0 h g
and_then-All P (ps, false) next h g = h

mutual
  unfolding download_node download_entries make_all

  node-IsAllowed :
      (n : Node) (base names : LocalPath)
      → All IsPart names
      → All (IsAllowed base) (download_node (base ++ names) n).0
  node-IsAllowed (file o m w) base names h = file-IsAllowed o m w base names h
  node-IsAllowed (folder s m l es) base names h =
      let here = make_all-IsAllowed base names h in
      let rest = entries-IsAllowed es base names h in
      ground (
        arith,
        here,
        All-append (IsAllowed base) (make_all (base ++ names))
            (download_entries (base ++ names) es).0 here rest,
      )

  entries-IsAllowed :
      (es : Entries) (base names : LocalPath)
      → All IsPart names
      → All (IsAllowed base) (download_entries (base ++ names) es).0
  entries-IsAllowed no_entry base names h = tt
  entries-IsAllowed (entry name n es) base names h = elim (Bool-cases (is_safe name)) [
    | inl safe ↦
        let longer = All-append IsPart names (name ∷ []) h (is_safe-IsPart name safe, tt) in
        let here =
          subst (λ path. All (IsAllowed base) (download_node path n).0)
            (sym (append_assoc base names (name ∷ [])))
            (node-IsAllowed n base (names ++ name ∷ []) longer) in
        rw safe (
          and_then-All (IsAllowed base) (download_node ((base ++ names) ++ name ∷ []) n)
            (download_entries (base ++ names) es) here (entries-IsAllowed es base names h))
    | inr unsafe ↦ rw unsafe tt
  ]

-- Whatever the server's tree is, a recursive download writes only the target and paths reached from it
-- by names that are single parts other than . and .., and makes directories only there and, where
-- they are missing, on the way to the target.
pub download_node-IsAllowed :
    (n : Node) (base : LocalPath) → All (IsAllowed base) (download_node base n).0
download_node-IsAllowed n base =
    subst (λ path. All (IsAllowed base) (download_node path n).0) (append-nil base)
      (node-IsAllowed n base [] tt)
