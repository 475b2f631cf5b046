-- ===== src/Tests/Configs.antt =====
-- Settings and files.
use ziti_ssh.Prelude.{
  ℕ, zero, suc, ◌==◌, ap, ◌∙◌, append-nil, subst, false, ◌≡◌, refl, sym, true, List, [], ◌∷◌, ◌++◌,
  if◌then◌else◌, none, some, arith,
}
use mathlib.Core.Option
use ziti_ssh.Text.{Text, codes, text_dec}
use ziti_ssh.Dict.{remove, Dict, lookup, insert}
use ziti_ssh.Disk.{Disk, File, Always}
use ziti_ssh.Config.AtomicWrite.{Calls, atomic_write_file}
use ziti_ssh.Config.AtomicWrite.Laws.{OldOrNew, FreshTemp, atomic_write_file-OldOrNew}
use ziti_ssh.Config.ZtApis.{Json, IsJson, persist_zt_apis, rewrite, zt_apis}
use ziti_ssh.Config.UrlUpdates.{
  UrlEvent, updated_urls, urls_updated, after_updates, AllFresh, HasIdentity,
  after_updates-HasIdentity,
}
use ziti_ssh.Tests.Samples.{good_calls}

abbrev path : Text
path = codes "id"

abbrev joined : List Text → Text
joined [] = []
joined (u ∷ us) = u ++ joined us

-- A format in which 0 starts a field and 1 ends its name, and that prints a space after each value.
abbrev shifted : Text → Text
shifted [] = []
shifted (c ∷ s) = suc (suc c) ∷ shifted s

abbrev print_fields : Dict Text → Text
print_fields [] = []
print_fields ((k, v) ∷ m) = 0 ∷ (shifted k ++ 1 ∷ (shifted (v ++ codes " ") ++ print_fields m))

-- What the rest of a document has: the runes up to its first mark, the value up to that of the
-- first name, and the fields after it.
record Reading : Type 0 where
  pub part : Text
  pub text : Text
  pub fields : Dict Text

abbrev read_rune : ℕ → Reading → Reading
read_rune zero r = record { part = []; text = []; fields = (r.part, r.text) ∷ r.fields }
read_rune (suc zero) r = record r { part = []; text = r.part }
read_rune (suc (suc c)) r = record r { part = c ∷ r.part }

abbrev read_fields : Text → Reading
read_fields [] = record { part = []; text = []; fields = [] }
read_fields (c ∷ s) = read_rune c (read_fields s)

-- a value is what a text is without its spaces
abbrev unspaced : Text → Text
unspaced [] = []
unspaced (c ∷ s) = if c == b' ' then unspaced s else c ∷ unspaced s

abbrev small_json : Json
small_json = record {
  Value = Text;
  value = unspaced;
  parse = λ t. some (read_fields t).fields;
  print = λ m. some (print_fields m);
  encode = joined;
}

abbrev spaced : Dict Text → Dict Text
spaced [] = []
spaced ((k, v) ∷ m) = (k, v ++ codes " ") ∷ spaced m

read_fields-shifted :
    (s rest : Text)
    → read_fields (shifted s ++ rest)
      ≡ record (read_fields rest) { part = s ++ (read_fields rest).part }
read_fields-shifted [] rest = refl
read_fields-shifted (c ∷ s) rest =
    ap (λ (r : Reading). record r { part = c ∷ r.part }) (read_fields-shifted s rest)

read_fields-print_fields :
    (m : Dict Text)
    → read_fields (print_fields m) ≡ record { part = []; text = []; fields = spaced m }
read_fields-print_fields [] = refl
read_fields-print_fields ((k, v) ∷ m) =
    let value = v ++ codes " " in
    let rest = print_fields m in
    ap (read_rune 0) (
      read_fields-shifted k (1 ∷ (shifted value ++ rest))
      ∙ ap (λ (r : Reading). record (read_rune 1 r) { part = k ++ [] })
          (read_fields-shifted value rest
            ∙ ap (λ (r : Reading). record r { part = value ++ r.part })
                (read_fields-print_fields m)))
    ∙ rw (append-nil k, append-nil value) refl

unspaced-space : (v : Text) → unspaced (v ++ codes " ") ≡ unspaced v
unspaced-space [] = refl
unspaced-space (c ∷ v) = ground (arith, unspaced-space v)

value-spaced :
    (k : Text) (m : Dict Text)
    → Option.map unspaced (lookup k (spaced m)) ≡ Option.map unspaced (lookup k m)
unfolding lookup
value-spaced k [] = refl
value-spaced k ((i, v) ∷ m) = ground (arith, unspaced-space v, value-spaced k m)

small_json-IsJson : IsJson small_json
small_json-IsJson m t h =
    let printed : print_fields m ≡ t = ground (arith, h) in
    let read =
      ap (λ s. some (read_fields s).fields) (sym printed)
      ∙ ap (λ (r : Reading). some r.fields) (read_fields-print_fields m) in
    (spaced m, read, (λ k. value-spaced k m))

-- The identity file has an id of two parts, and old URLs.
abbrev identity_fields : Dict Text
identity_fields = (codes "id", codes "cert key") ∷ (zt_apis, codes "old") ∷ []

abbrev old_file : File
old_file = record { content = print_fields identity_fields; mode = 0o600 }

abbrev disk : Disk
disk = (path, old_file) ∷ []

fresh : FreshTemp good_calls path (codes "new") 0o644 disk
unfolding lookup text_dec
fresh tmp h = ((λ e. ground (arith, h, e)), ground (arith, h))

atomic_write_file-OldOrNew_example :
    Always
      (OldOrNew good_calls path (codes "new") 0o644 disk)
      (atomic_write_file good_calls path (codes "new") 0o644 disk)
atomic_write_file-OldOrNew_example =
    atomic_write_file-OldOrNew good_calls path (codes "new") 0o644 disk fresh

found : lookup path disk ≡ some old_file
unfolding lookup text_dec
found = refl

abbrev read_back : Dict Text
read_back = spaced identity_fields

-- An update whose rename fails, and one that is written.
abbrev no_rename : Calls
no_rename = record good_calls { rename_ok = false }

abbrev failing : UrlEvent
failing = record { args = updated_urls (codes "v" ∷ []); calls = no_rename; stat_ok = true }

abbrev writing : UrlEvent
writing = record { args = updated_urls (codes "u" ∷ []); calls = good_calls; stat_ok = true }

fresh_again : lookup (codes "t") (urls_updated small_json path failing disk) ≡ none
unfolding urls_updated persist_zt_apis lookup text_dec rewrite insert atomic_write_file remove
fresh_again = refl

all_fresh : AllFresh small_json path (failing ∷ writing ∷ []) disk
all_fresh = (
  fresh,
  (
    (λ tmp h.
        let same : codes "t" ≡ tmp = ground (arith, h) in
        (
          (fresh tmp h).0,
          subst (λ x. lookup x (urls_updated small_json path failing disk) ≡ none) same fresh_again,
        )),
    tt,
  ),
)

old_identity : HasIdentity small_json path read_back disk
old_identity = record {
  file = old_file;
  fields = read_back;
  found = found;
  parsed = refl;
  same = λ k ne. refl;
}

after_updates-HasIdentity_example :
    HasIdentity small_json path read_back
      (after_updates small_json path (failing ∷ writing ∷ []) disk)
after_updates-HasIdentity_example =
    after_updates-HasIdentity small_json path (failing ∷ writing ∷ []) read_back disk
      small_json-IsJson all_fresh old_identity
