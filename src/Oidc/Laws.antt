-- ===== src/Oidc/Laws.antt =====
-- What a login adds to the credentials, and when it ends.
use ziti_ssh.Prelude.{
  ◌≡◌, ◌≢◌, ◌⊎◌, inl, inr, refl, Bool, true, false, List, [], ◌∷◌, ◌++◌, if◌then◌else◌, Option,
  none, some, Result, ok, err, arith, Bool-cases,
}
use ziti_ssh.Text.{Text, is_empty}
use ziti_ssh.Oidc.{
  FlowParams, FlowError, timed_out, no_issuer, no_client_id, no_relying_party,
  default_callback_port, PartySettings, FlowEvent, called_back, time_over, heard, await_token,
  run_flow, add_credentials, party_settings,
}

-- The tokens that callbacks bring before the time is over.
unfoldable pub tokens_in_time : List FlowEvent → List Text
tokens_in_time [] = []
tokens_in_time (called_back token ∷ es) = token ∷ tokens_in_time es
tokens_in_time (time_over ∷ es) = []

-- Whether the time is over within the events.
unfoldable pub is_over : List FlowEvent → Bool
is_over [] = false
is_over (called_back token ∷ es) = is_over es
is_over (time_over ∷ es) = true

-- The first token in time, else the end of the time, if it comes.
abbrev pub answer_of : List Text → Bool → Option (Result FlowError Text)
answer_of [] false = none
answer_of [] true = some (err timed_out)
answer_of (token ∷ tokens) over = some (ok token)

await_token-heard :
    (listen_ok : Bool) (es : List FlowEvent)
    → await_token (heard listen_ok es)
      ≡ answer_of (if listen_ok then tokens_in_time es else []) (is_over es)
unfolding await_token heard tokens_in_time is_over
await_token-heard true [] = refl
await_token-heard false [] = refl
await_token-heard true (called_back token ∷ es) = refl
await_token-heard false (called_back token ∷ es) = await_token-heard false es
await_token-heard true (time_over ∷ es) = refl
await_token-heard false (time_over ∷ es) = refl

-- What an ended login has done to the credentials: nothing without an issuer; else the first token
-- of a callback in time was added at their end, or there was an error, and they are as they were.
abbrev pub Added :
    (listen_ok : Bool)
    → FlowParams
    → List FlowEvent
    → List Text
    → Result FlowError (Unit {0})
    → List Text
    → Type 0
Added listen_ok p es before r after =
    (r ≡ ok tt) × (is_empty p.issuer ≡ true) × (after ≡ before)
    ⊎ (r ≡ ok tt)
      × (is_empty p.issuer ≡ false)
      × (is_empty p.client_id ≡ false)
      × (listen_ok ≡ true)
      × ((token : Text) × (rest : List Text) × (tokens_in_time es ≡ token ∷ rest)
          × (after ≡ before ++ token ∷ []))
    ⊎ (r ≢ ok tt) × (is_empty p.issuer ≡ false) × (after ≡ before)

-- A flow that does not start has an error at once; one that starts has the answer of its events.
run_flow_result :
    (relying_party : PartySettings → Bool) (listen_ok : Bool) (p : FlowParams) (es : List FlowEvent)
    → let result = (run_flow relying_party listen_ok p es).result in
      ((e : FlowError) × (result ≡ some (err e)))
      ⊎ ((is_empty p.client_id ≡ false)
          × (result ≡ answer_of (if listen_ok then tokens_in_time es else []) (is_over es)))
unfolding run_flow
run_flow_result relying_party listen_ok p es =
    let answer = await_token-heard listen_ok es in
    elim (Bool-cases (is_empty p.issuer)) [
      | inl i ↦ inl (no_issuer, ground (arith, i))
      | inr i ↦ elim (Bool-cases (is_empty p.client_id)) [
        | inl k ↦ inl (no_client_id, ground (arith, i, k))
        | inr k ↦
            elim (Bool-cases (
              relying_party (
                party_settings p
                  (if is_empty p.callback_port then default_callback_port else p.callback_port)))) [
                    | inl q ↦ inr (k, ground (arith, i, k, q, answer))
                    | inr q ↦ inl (no_relying_party, ground (arith, i, k, q))
                  ]
      ]
    ]

-- The answer of a flow, by what it waits for.
answer_of_ways :
    (tokens : List Text) (over : Bool) (result : Option (Result FlowError Text))
    → result ≡ answer_of tokens over
    → ((token : Text) × (rest : List Text) × (tokens ≡ token ∷ rest) × (result ≡ some (ok token)))
      ⊎ (result ≡ some (err timed_out))
      ⊎ (over ≡ false) × (result ≡ none)
answer_of_ways [] false result h = inr (inr (refl, h))
answer_of_ways [] true result h = inr (inl h)
answer_of_ways (token ∷ rest) over result h = inl (token, rest, refl, h)

-- With an issuer, a login that ends adds the token of its flow, or fails with the flow's error.
add_credentials_flow :
    (relying_party : PartySettings → Bool) (listen_ok : Bool) (p : FlowParams) (es : List FlowEvent)
    (before : List Text)
    → is_empty p.issuer ≡ false
    → let result = (run_flow relying_party listen_ok p es).result in
      let ended = add_credentials relying_party listen_ok p es before in
      (result ≡ none → ended ≡ none)
      × ((e : FlowError) → result ≡ some (err e) → ended ≡ some (err e, before))
      × ((token : Text) → result ≡ some (ok token) → ended ≡ some (ok tt, before ++ token ∷ []))
unfolding add_credentials
add_credentials_flow relying_party listen_ok p es before i =
    ((λ h. ground (arith, i, h)), (λ e h. ground (arith, i, h)), (λ token h. ground (arith, i, h)))

-- Without an issuer, a login that ends has no error and adds nothing. With one, it has added the
-- first token that a callback brought in time, or it ends with an error and leaves the credentials as
-- they were. And it ends once its time is over, also where the callback's server cannot listen.
pub add_credentials-Added :
    (relying_party : PartySettings → Bool) (listen_ok : Bool) (p : FlowParams) (es : List FlowEvent)
    (before : List Text)
    → ((r : Result FlowError (Unit {0})) (after : List Text)
        → add_credentials relying_party listen_ok p es before ≡ some (r, after)
        → Added listen_ok p es before r after)
      × (is_over es ≡ true → add_credentials relying_party listen_ok p es before ≢ none)
unfolding add_credentials
add_credentials-Added relying_party listen_ok p es before = elim (Bool-cases (is_empty p.issuer)) [
  | inl i ↦ (
    (λ r after h. inl (ground (arith, i, h), i, ground (arith, i, h))),
    (λ o h. ground (arith, i, h)),
  )
  | inr i ↦
      let (waits, fails, adds) = add_credentials_flow relying_party listen_ok p es before i in
      elim (run_flow_result relying_party listen_ok p es) [
        | inl (e, k) ↦ (
          (λ r after h. inr (inr (ground (arith, h, fails e k), i, ground (arith, h, fails e k)))),
          (λ o h. ground (arith, h, fails e k)),
        )
        | inr (c, k) ↦ elim (answer_of_ways _ (is_over es) _ k) [
          | inl (token, rest, q, w) ↦ (
            (λ r after h. inr (
                inl (
                  ground (arith, h, adds token w),
                  i,
                  c,
                  ground (arith, q),
                  (token, rest, ground (arith, q), ground (arith, h, adds token w)),
                ))),
            (λ o h. ground (arith, h, adds token w)),
          )
          | inr (inl w) ↦ (
            (λ r after h. inr (
                inr
                  (ground (arith, h, fails timed_out w), i, ground (arith, h, fails timed_out w)))),
            (λ o h. ground (arith, h, fails timed_out w)),
          )
          | inr (inr (o', w)) ↦
              ((λ r after h. absurd (ground (arith, h, waits w))), (λ o h. ground (arith, o, o')))
        ]
      ]
]
