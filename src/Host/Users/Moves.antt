-- ===== src/Host/Users/Moves.antt =====
-- How the sessions that the connections hold move in one step, and what the maps say of them.
use ziti_ssh.Prelude.{
  ℕ, ◌+◌, ◌<◌, ◌≡◌, ◌≢◌, inl, inr, refl, sym, ap, ◌∙◌, Bool, true, false, List, [], ◌∷◌,
  if◌then◌else◌, none, some, arith, All, subst, Option-cases,
}
use ziti_ssh.Text.{Text, text_dec, text_eq_ne}
use ziti_ssh.Dict.{lookup}
use ziti_ssh.Host.Users.{
  Begun, rejected, first, again, Book, count, is_taken, ensure_begin, roll_back, release_begin,
}
use ziti_ssh.Host.Users.Books.{
  count-ensure_begin, owner-ensure_begin, count-roll_back, owner-roll_back, count-release_begin,
  owner-release_begin, only_at,
}
use ziti_ssh.Host.Users.Threads.{Thread, Phase, holds, waiting, begun_phase}
use ziti_ssh.Host.Users.Effects.{Owned, held, held_by}
use ziti_ssh.Host.Users.Spec.{
  Session, Free, Inserted, here, there, Action, idle, acquired, refused, released, SpecStep, stays,
  takes, turns_away, gives, All-Inserted,
}

unfoldable pub push_if : Bool → Session → List Session → List Session
push_if b s ss = if b then s ∷ ss else ss

-- the sessions that the connections hold
unfoldable pub sessions_of : List Thread → List Session
unfolding push_if
sessions_of [] = []
sessions_of (t ∷ ts) = push_if (holds t.phase) (t.identity, t.username) (sessions_of ts)

unfoldable pub is_waiting : Phase → Bool
is_waiting waiting = true
is_waiting _ = false

-- by whether the connection held its session before and after, and whether it was new
unfoldable pub action : Bool → Bool → Bool → Session → Action
action true true new s = idle
action true false new s = released s
action false true new s = acquired s
action false false true s = refused s
action false false false s = idle

-- What the step does to the sessions, seen from the connection that makes it.
unfoldable pub acted : Thread → Phase → Action
unfolding action is_waiting
acted t p = action (holds t.phase) (holds p) (is_waiting t.phase) (t.identity, t.username)

unfoldable pub Moved : Action → List Session → List Session → Type 0
Moved idle ss ts = ss ≡ ts
Moved (acquired s) ss ts = Inserted s ss ts
Moved (refused s) ss ts = ss ≡ ts
Moved (released s) ss ts = Inserted s ts ss

pub Moved-cons :
    (a : Action) (b : Bool) (s : Session) (ss ts : List Session)
    → Moved a ss ts
    → Moved a (push_if b s ss) (push_if b s ts)
unfolding Moved push_if
Moved-cons idle b s ss ts m = ap (push_if b s) m
Moved-cons (refused r) b s ss ts m = ap (push_if b s) m
Moved-cons (acquired r) true s ss ts m = there m
Moved-cons (acquired r) false s ss ts m = m
Moved-cons (released r) true s ss ts m = there m
Moved-cons (released r) false s ss ts m = m

Moved-action :
    (h h' new : Bool) (s : Session) (ss : List Session)
    → Moved (action h h' new s) (push_if h s ss) (push_if h' s ss)
unfolding Moved push_if action
Moved-action true true new s ss = refl
Moved-action true false new s ss = here
Moved-action false true new s ss = here
Moved-action false false true s ss = refl
Moved-action false false false s ss = refl

-- No owner is left over from sessions that have ended.
abbrev pub NoStale : Book → Type 0
NoStale b = (v : Text) → lookup v b.owners ≢ none → 0 < count v b

pub begin-NoStale :
    (identity u : Text) (b : Book) → NoStale b → NoStale (ensure_begin identity u b).1
begin-NoStale identity u b h v own =
    ground (arith, own, h v, count-ensure_begin u v b identity, owner-ensure_begin u v b identity)

pub roll_back-NoStale : (u : Text) (b : Book) → NoStale b → NoStale (roll_back u b)
roll_back-NoStale u b h v own =
    ground (arith, own, h v, count-roll_back u v b, owner-roll_back u v b)

pub release-NoStale : (u : Text) (b : Book) → NoStale b → NoStale (release_begin u b).1
release-NoStale u b h v own =
    ground (arith, own, h v, count-release_begin u v b, owner-release_begin u v b)

pub Moved-thread :
    (t t' : Thread) (ts : List Thread)
    → t'.identity ≡ t.identity
    → t'.username ≡ t.username
    → Moved (acted t t'.phase) (sessions_of (t ∷ ts)) (sessions_of (t' ∷ ts))
unfolding acted sessions_of
Moved-thread t t' ts ei eu =
    let h = holds t.phase in
    let h' = holds t'.phase in
    let s : Session = (t.identity, t.username) in
    let same : push_if h' s (sessions_of ts)
        ≡ push_if h' (t'.identity, t'.username) (sessions_of ts) =
      λ k. push_if h' (sym ei k, sym eu k) (sessions_of ts) in
    subst (Moved (action h h' (is_waiting t.phase) s) (push_if h s (sessions_of ts))) same
      (Moved-action h h' (is_waiting t.phase) s (sessions_of ts))

-- If all holders own their user, then whoever has sessions of a user is its owner.
sessions_of-owner :
    (b : Book) (ts : List Thread)
    → All (λ t. holds t.phase ≡ true → lookup t.username b.owners ≡ some t.identity) ts
    → All (λ s. lookup s.1 b.owners ≡ some s.0) (sessions_of ts)
unfolding sessions_of push_if
sessions_of-owner b [] h = tt
sessions_of-owner b (t ∷ ts) h = ground (arith, h.0, sessions_of-owner b ts h.1)

owner-Free :
    (b : Book) (s : Session) (ss : List Session)
    → lookup s.1 b.owners ≡ some s.0
    → All (λ r. lookup r.1 b.owners ≡ some r.0) ss
    → Free s ss
owner-Free b s [] own h = tt
owner-Free b s (r ∷ ss) own h = (
  (λ same. ground (arith, h.0, own, ap (λ u. lookup u b.owners) same)),
  owner-Free b s ss own h.1,
)

held_one-push :
    (h : Bool) (u i j : Text) (s : Session) (ss : List Session) (n : ℕ)
    → 0 < (if h then only_at s.1 u else 0) + n
    → Free (i, u) (push_if h s ss)
    → Free (j, u) (push_if h s ss)
    → (0 < n → Free (i, u) ss → Free (j, u) ss → i ≡ j)
    → i ≡ j
unfolding push_if
held_one-push false u i j s ss n pos f g rest = rest (ground (arith, pos)) f g
held_one-push true u i j s ss n pos f g rest = elim (text_dec s.1 u) [
  | yes e ↦ sym (f.0 e) ∙ g.0 e
  | no ne ↦ rest (ground (arith, pos, text_eq_ne s.1 u ne)) f.1 g.1
]

-- A user with a session that all its sessions agree on has one identity.
held_one :
    (u i j : Text) (ts : List Thread)
    → 0 < held ts u
    → Free (i, u) (sessions_of ts)
    → Free (j, u) (sessions_of ts)
    → i ≡ j
unfolding held held_by sessions_of
held_one u i j [] pos f g = absurd (omega (arith, pos))
held_one u i j (t ∷ ts) pos f g =
    held_one-push (holds t.phase) u i j (t.identity, t.username) (sessions_of ts) (held ts u) pos f
      g (held_one u i j ts)

-- A refusal has found an owner, another identity.
abbrev pub Justified : Action → Book → Type 0
Justified (refused s) b = is_taken s.0 s.1 b ≡ true
Justified _ b = Unit

pub Justified-old : (h h' : Bool) (s : Session) (b : Book) → Justified (action h h' false s) b
unfolding action
Justified-old true true s b = tt
Justified-old true false s b = tt
Justified-old false true s b = tt
Justified-old false false s b = tt

pub Justified-begun :
    (taken is_first : Bool) (s : Session) (b b' b'' : Book)
    → is_taken s.0 s.1 b ≡ taken
    → let begun : Begun × Book =
        (if taken then (rejected, b) else if is_first then (first, b') else (again, b'')) in
      Justified (action false (holds (begun_phase begun.0)) true s) b
unfolding action holds begun_phase
Justified-begun true is_first s b b' b'' e = e
Justified-begun false true s b b' b'' e = tt
Justified-begun false false s b b' b'' e = tt

taken_owner :
    (identity u : Text) (b : Book)
    → is_taken identity u b ≡ true
    → (o : Text) × (lookup u b.owners ≡ some o) × (identity ≢ o)
unfolding is_taken
taken_owner identity u b h = elim (Option-cases (lookup u b.owners)) [
  | inl e ↦ absurd (ground (arith, h, e))
  | inr (o, e) ↦ (o, e, (λ same. ground (arith, h, e, same)))
]

-- A move with its reasons is a step of the promise.
pub Moved-SpecStep :
    (a : Action) (ts ts' : List Thread) (b b' : Book)
    → Moved a (sessions_of ts) (sessions_of ts')
    → Justified a b
    → ((v : Text) → count v b ≡ held ts v)
    → NoStale b
    → All (λ t. Owned b t.identity t.username t.phase) ts
    → All (λ t. Owned b' t.identity t.username t.phase) ts'
    → SpecStep a (sessions_of ts) (sessions_of ts')
unfolding Moved
Moved-SpecStep idle ts ts' b b' m j c ns own own' = subst (SpecStep idle (sessions_of ts)) m stays
Moved-SpecStep (acquired s) ts ts' b b' m j c ns own own' =
    let (o, rest) = All-Inserted _ s m (sessions_of-owner b' ts' own') in
    takes (owner-Free b' s (sessions_of ts) o rest) m
Moved-SpecStep (released s) ts ts' b b' m j c ns own own' = gives m
Moved-SpecStep (refused s) ts ts' b b' m j c ns own own' =
    let (o, owner, other) = taken_owner s.0 s.1 b j in
    let refuse : ¬ Free s (sessions_of ts) = λ free. other (
      held_one s.1 s.0 o ts (ground (arith, c s.1, ns s.1, owner)) free
        (owner-Free b (o, s.1) (sessions_of ts) owner (sessions_of-owner b ts own))) in
    subst (SpecStep (refused s) (sessions_of ts)) m (turns_away refuse)
