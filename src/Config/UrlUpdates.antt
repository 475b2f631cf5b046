-- ===== src/Config/UrlUpdates.antt =====
-- registerZtAPIsPersist of cmd/ziti-ssh/main.go and cmd/ziti-scp/main.go, and the same listener in run
-- of cmd/ziti-ssh-ca/main.go: the identity file over the updates of the controllers' URLs. Its loop
-- makes texts of the URLs, which the model has already.
use ziti_ssh.Prelude.{
  ◌≡◌, inl, inr, ap, sym, ◌∙◌, Bool, false, List, [], ◌∷◌, some, arith, Option-cases, subst,
}
use mathlib.Core.Option
use ziti_ssh.Text.{Text, text_eq}
use ziti_ssh.Dict.{Dict, lookup, insert, lookup-insert}
use ziti_ssh.Disk.{Disk, File}
use ziti_ssh.Config.AtomicWrite.{Calls, atomic_write_file}
use ziti_ssh.Config.AtomicWrite.Laws.{FreshTemp, atomic_write_file-OldOrNew}
use ziti_ssh.Config.ZtApis.{Json, IsJson, zt_apis, kept_mode, rewrite, persist_zt_apis}

-- What an event carries: nothing, something else, or a list of URLs.
pub data UrlArgs : Type 0 where
  no_args other_args : UrlArgs
  updated_urls : List Text → UrlArgs

-- An event, with what the calls of its write answer.
pub record UrlEvent : Type 0 where
  pub args : UrlArgs
  pub calls : Calls
  pub stat_ok : Bool

module _ (j : Json) (path : Text) where
  -- the listener; an error of the write is logged only
  unfoldable on_args : Calls → (stat_ok : Bool) → UrlArgs → Disk → Disk
  on_args c stat_ok no_args d = d
  on_args c stat_ok other_args d = d
  on_args c stat_ok (updated_urls urls) d = (persist_zt_apis j c stat_ok path urls d).1

  unfoldable pub urls_updated : UrlEvent → Disk → Disk
  unfolding on_args
  urls_updated e d = on_args e.calls e.stat_ok e.args d

  unfoldable pub after_updates : List UrlEvent → Disk → Disk
  after_updates [] d = d
  after_updates (e ∷ es) d = after_updates es (urls_updated e d)

  -- Each write chooses a name that is free.
  abbrev pub AllFresh : List UrlEvent → Disk → Type 0
  AllFresh [] d = Unit
  AllFresh (e ∷ es) d = FreshTemp e.calls path [] 0 d × AllFresh es (urls_updated e d)

  -- The identity file is there, and has the values of a map's fields, but for the URLs.
  pub record HasIdentity (m : Dict Text) (d : Disk) : Type 0 where
    pub file : File
    pub fields : Dict Text
    pub found : lookup path d ≡ some file
    pub parsed : j.parse file.content ≡ some fields
    pub same :
        (k : Text)
        → text_eq zt_apis k ≡ false
        → Option.map j.value (lookup k fields) ≡ Option.map j.value (lookup k m)

  moved :
      (m : Dict Text) (d d' : Disk)
      → lookup path d' ≡ lookup path d
      → HasIdentity m d
      → HasIdentity m d'
  moved m d d' e h = record {
    file = h.file;
    fields = h.fields;
    found = e ∙ h.found;
    parsed = h.parsed;
    same = h.same;
  }

  rewrite-HasIdentity :
      (c : Calls) (stat_ok : Bool) (m : Dict Text) (urls : List Text) (d : Disk)
      → IsJson j
      → FreshTemp c path [] 0 d
      → (h : HasIdentity m d) → HasIdentity m (rewrite j c stat_ok path urls h.file d).1
  unfolding rewrite
  rewrite-HasIdentity c stat_ok m urls d js fresh h =
      elim (Option-cases (j.print (insert zt_apis (j.encode urls) h.fields))) [
        | inl p ↦ moved m d _ (ground (arith, h.parsed, p)) h
        | inr (out, p) ↦
            let mode = kept_mode j c stat_ok h.file in
            let r = atomic_write_file c path out mode d in
            let left : (rewrite j c stat_ok path urls h.file d).1 ≡ r.disk =
              ground (arith, h.parsed, p) in
            elim (atomic_write_file-OldOrNew c path out mode d fresh).0 [
              | inl old ↦ moved m d _ (ap (lookup path) left ∙ old) h
              | inr new ↦
                  let (fields, parsed, same) = js (insert zt_apis (j.encode urls) h.fields) out p in
                  record {
                    file = record { content = out; mode = mode };
                    fields = fields;
                    found = ap (lookup path) left ∙ new;
                    parsed = parsed;
                    same = λ k ne. ground (
                      arith,
                      same k,
                      lookup-insert zt_apis k (j.encode urls) h.fields,
                      ne,
                      h.same k ne,
                    );
                  }
            ]
      ]

  on_args-HasIdentity :
      (c : Calls) (stat_ok : Bool) (args : UrlArgs) (m : Dict Text) (d : Disk)
      → IsJson j
      → FreshTemp c path [] 0 d
      → HasIdentity m d
      → HasIdentity m (on_args c stat_ok args d)
  unfolding on_args persist_zt_apis
  on_args-HasIdentity c stat_ok no_args m d js fresh h = h
  on_args-HasIdentity c stat_ok other_args m d js fresh h = h
  on_args-HasIdentity c stat_ok (updated_urls urls) m d js fresh h =
      let same : (persist_zt_apis j c stat_ok path urls d).1
          ≡ (rewrite j c stat_ok path urls h.file d).1 =
        ground (arith, h.found) in
      subst (HasIdentity m) (sym same) (rewrite-HasIdentity c stat_ok m urls d js fresh h)

  -- Whatever updates come, and whichever of their writes fail, the identity file stays one that can
  -- be read, and keeps the values of all of its fields but the URLs. What the JSON package prints
  -- parses to the same values, and the temporary names were free.
  pub after_updates-HasIdentity :
      (es : List UrlEvent) (m : Dict Text) (d : Disk)
      → IsJson j
      → AllFresh es d
      → HasIdentity m d
      → HasIdentity m (after_updates es d)
  unfolding after_updates
  after_updates-HasIdentity [] m d js fresh h = h
  after_updates-HasIdentity (e ∷ es) m d js fresh h =
      after_updates-HasIdentity es m (urls_updated e d) js fresh.1
        (unfold urls_updated in on_args-HasIdentity e.calls e.stat_ok e.args m d js fresh.0 h)
