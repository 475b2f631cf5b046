-- ===== src/Tests/HostFiles.antt =====
-- The files of the host: sudoers and state.
use ziti_ssh.Prelude.{◌≡◌, ◌≢◌, [], ◌∷◌, some, arith}
use ziti_ssh.Text.{Text, codes}
use ziti_ssh.Host.Sudoers.{create_sudoers, sudoers_path}
use ziti_ssh.Host.Sudoers.Files.{Outcome, create_sudoers_outcome}
use ziti_ssh.Host.StateFile.{state_content, state_names}
use ziti_ssh.Host.StateFile.RoundTrip.{state_names-state_content}
use ziti_ssh.Tests.Samples.{good_sudoers_calls}

abbrev user : Text
user = codes "al"

abbrev rule : Text
rule = codes "ALL=(ALL) ALL"

other_name : (tmp : Text) → good_sudoers_calls.tmp_name ≡ some tmp → tmp ≢ sudoers_path user
unfolding sudoers_path
other_name tmp h e = ground (arith, h, e)

create_sudoers_outcome_example :
    Outcome good_sudoers_calls user rule [] (create_sudoers good_sudoers_calls user rule [])
create_sudoers_outcome_example =
    create_sudoers_outcome good_sudoers_calls user rule [] (λ tmp h e. other_name tmp h e)

state_names-state_content_example :
    state_names (state_content (codes "al" ∷ codes "bo" ∷ [])) ≡ codes "al" ∷ codes "bo" ∷ []
state_names-state_content_example =
    state_names-state_content (codes "al" ∷ codes "bo" ∷ []) (ground arith)
