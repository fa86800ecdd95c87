-- ===== src/Tests/Guard.antt =====
-- A guarded read during which the credentials are renewed once.
use binbox_cli.Base.{ℕ, ◌+◌, ◌≡◌, refl, false, none, some, ltb, if◌then◌else◌}
use binbox_cli.Errors.{ok}
use binbox_cli.Text.{text}
use binbox_cli.Guard.{
  Sdk, GuardState, guarded_read, validate_read_identity, verified_identity, to_string,
  accept_identity, revalidate, ensure_current_identity, commit_stable_response, read_again,
  then_read_again, read_once,
}
use binbox_cli.Guard.Stable.{SameAccount, Commits, guarded_read_stable}
use binbox_cli.Tests.Data.{program, platform, account, principal}

-- The world counts the answers; the generation is 2 from the second answer on.
abbrev renewing : Sdk ℕ ℕ
renewing = record {
  generation = λ n. ((if ltb n 2 then 1 else 2), n + 1);
  caller_identity =
      λ n. (ok (some (record { account = some account; arn = some principal })), n + 1);
  retrieve = λ n. (none, n + 1);
  read = λ n. (ok n, n + 1);
}

abbrev before : GuardState
before = record {
  identity = record {
    partition = text "aws";
    account_id = account;
    principal_arn = principal;
    credential_generation = 1;
  };
  changed = false;
}

-- The value read at 1 is discarded, and the one read at 5 is returned.
rereads : (guarded_read platform renewing none none before 0).0 ≡ ok 5
unfolding program guarded_read validate_read_identity verified_identity to_string accept_identity
    revalidate ensure_current_identity commit_stable_response read_again then_read_again read_once
rereads = refl

guarded_read_stable_example :
    SameAccount before (guarded_read platform renewing none none before 0).1.0
    × Commits platform renewing none (guarded_read platform renewing none none before 0)
guarded_read_stable_example = guarded_read_stable platform renewing none none before 0
