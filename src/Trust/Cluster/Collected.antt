-- ===== src/Trust/Cluster/Collected.antt =====
-- Which keys a pass over the controllers collects.
use ziti_ssh.Prelude.{
  ◌≡◌, inl, inr, refl, sym, ap, ◌∙◌, Bool, List, [], ◌∷◌, if◌then◌else◌, Option, none, some, Result,
  ok, err, arith, any, All, Option-cases, Result-cases, map, subst,
}
use ziti_ssh.Text.{Text}
use ziti_ssh.Trust.Keys.Sorting.{occurrences}
use ziti_ssh.Trust.Cluster.{
  Network, X509, ClusterCa, CaError, collect, lines_of, int_ca_from_controller, collect_cluster_cas,
}
use ziti_ssh.Trust.Cluster.Bytes.{IsLine}
use ziti_ssh.Trust.Cluster.Gather.{
  Entry, gather, push_line, is_line, entry_has, AllGood, gather_not_offered, gather_offered,
  All-gather,
}

module _ (N : Network) where
  open N use {Key, Pool}

  -- What the encodings promise: each determines its key, and a line is one line.
  pub record IsNetwork : Type 0 where
    pub marshal_pkix_inj :
        (k j : Key) (b : Text) → N.marshal_pkix k ≡ some b → N.marshal_pkix j ≡ some b → k ≡ j
    pub authorized_key_inj :
        (k j : Key) (l : Text) → N.authorized_key k ≡ some l → N.authorized_key j ≡ some l → k ≡ j
    pub authorized_key_line : (k : Key) (l : Text) → N.authorized_key k ≡ some l → IsLine l

  unfoldable key_entry : Option Text → Option Text → Option Entry
  key_entry none l = none
  key_entry (some b) l = some (b, l)

  unfoldable cert_entry : Result CaError (X509 Key) → Option Entry
  unfolding key_entry
  cert_entry (err e) = none
  cert_entry (ok cert) =
      key_entry (N.marshal_pkix cert.public_key) (N.authorized_key cert.public_key)

  -- What one controller presents, if it can be asked and its key can be encoded.
  unfoldable entry_at : Option Pool → Text → Option Entry
  entry_at root_pool url = cert_entry (int_ca_from_controller N root_pool url)

  -- The line that a controller offers.
  unfoldable pub offers : Option Pool → Text → Text → Bool
  unfolding entry_at entry_has is_line cert_entry key_entry
  offers root_pool z url = entry_has z (entry_at root_pool url)

  abbrev IsKey : Text → Option Text → Type 0
  IsKey b l = (k : Key) × ((N.marshal_pkix k ≡ some b) × (N.authorized_key k ≡ l))

  gather-collect :
      (root_pool : Option Pool) (seen : List Text) (urls : List Text)
      → lines_of (collect N root_pool seen urls) ≡ gather seen (map (entry_at root_pool) urls)
  unfolding collect lines_of gather entry_at cert_entry key_entry push_line
  gather-collect root_pool seen [] = refl
  gather-collect root_pool seen (url ∷ urls) =
      elim (Result-cases (int_ca_from_controller N root_pool url)) [
        | inl (e, failed) ↦ ground (arith, failed, gather-collect root_pool seen urls)
        | inr (cert, found) ↦ elim (Option-cases (N.marshal_pkix cert.public_key)) [
          | inl none_h ↦ ground (arith, found, none_h, gather-collect root_pool seen urls)
          | inr (key, some_h) ↦ ground (
            arith,
            found,
            some_h,
            gather-collect root_pool seen urls,
            gather-collect root_pool (key ∷ seen) urls,
          )
        ]
      ]

  AllGood-IsKey :
      (k : Key) (bytes : Option Text) (ps : List (Option Entry))
      → N.marshal_pkix k ≡ bytes
      → AllGood IsKey ps
      → AllGood IsKey (key_entry bytes (N.authorized_key k) ∷ ps)
  unfolding key_entry
  AllGood-IsKey k none ps e h = h
  AllGood-IsKey k (some b) ps e h = ((k, (e, refl)), h)

  AllGood-cert :
      (r : Result CaError (X509 Key)) (ps : List (Option Entry))
      → AllGood IsKey ps
      → AllGood IsKey (cert_entry r ∷ ps)
  unfolding cert_entry
  AllGood-cert (err e) ps h = h
  AllGood-cert (ok cert) ps h =
      AllGood-IsKey cert.public_key (N.marshal_pkix cert.public_key) ps refl h

  AllGood-entries :
      (root_pool : Option Pool) (urls : List Text) → AllGood IsKey (map (entry_at root_pool) urls)
  unfolding entry_at
  AllGood-entries root_pool [] = tt
  AllGood-entries root_pool (url ∷ urls) =
      AllGood-cert (int_ca_from_controller N root_pool url) (map (entry_at root_pool) urls)
        (AllGood-entries root_pool urls)

  any-map :
      (root_pool : Option Pool) (z : Text) (urls : List Text)
      → any (entry_has z) (map (entry_at root_pool) urls) ≡ any (offers root_pool z) urls
  unfolding offers
  any-map root_pool z [] = refl
  any-map root_pool z (url ∷ urls) = ground (arith, any-map root_pool z urls)

  one_line : IsNetwork → (b : Text) (l m : Option Text) → IsKey b l → IsKey b m → l ≡ m
  one_line ins b l m h g =
      let same = ins.marshal_pkix_inj h.0 g.0 b h.1.0 g.1.0 in
      sym h.1.1 ∙ ap N.authorized_key same ∙ g.1.1

  one_key : IsNetwork → (b c l : Text) → IsKey b (some l) → IsKey c (some l) → b ≡ c
  one_key ins b c l h g =
      let same = ins.authorized_key_inj h.0 g.0 l h.1.1 g.1.1 in
      let both : some b ≡ some c = sym h.1.0 ∙ ap N.marshal_pkix same ∙ g.1.0 in
      ground (arith, both)

  collected :
      (root_pool : Option Pool) (urls : List Text) (cas : List ClusterCa)
      → collect_cluster_cas N root_pool urls ≡ ok cas
      → collect N root_pool [] urls ≡ cas
  unfolding collect_cluster_cas
  collected root_pool urls cas h = ground (arith, h)

  -- The collected lines are those that some controller of the list offers, each of them once, if an
  -- encoding determines its key.
  pub collect_cluster_cas_once :
      IsNetwork
      → (root_pool : Option Pool) (urls : List Text) (cas : List ClusterCa)
      → collect_cluster_cas N root_pool urls ≡ ok cas
      → (z : Text) → occurrences z (lines_of cas) ≡ (if any (offers root_pool z) urls then 1 else 0)
  collect_cluster_cas_once ins root_pool urls cas h z =
      let ps = map (entry_at root_pool) urls in
      let good = AllGood-entries root_pool urls in
      ground (
        arith,
        ap lines_of (collected root_pool urls cas h),
        gather-collect root_pool [] urls,
        any-map root_pool z urls,
        gather_not_offered IsKey (one_line ins) (one_key ins) z [] ps,
        gather_offered IsKey (one_line ins) (one_key ins) z [] ps good (λ b g. refl),
      )

  -- Every collected line is one line.
  pub collect_cluster_cas_lines :
      IsNetwork
      → (root_pool : Option Pool) (urls : List Text) (cas : List ClusterCa)
      → collect_cluster_cas N root_pool urls ≡ ok cas
      → All IsLine (lines_of cas)
  collect_cluster_cas_lines ins root_pool urls cas h =
      let ps = map (entry_at root_pool) urls in
      let same : lines_of cas ≡ gather [] ps =
        ap lines_of (sym (collected root_pool urls cas h)) ∙ gather-collect root_pool [] urls in
      subst (All IsLine) (sym same) (
        All-gather IsKey IsLine (λ b l good. ins.authorized_key_line good.0 l good.1.1) [] ps
          (AllGood-entries root_pool urls))
