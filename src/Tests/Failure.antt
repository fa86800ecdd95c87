-- ===== src/Tests/Failure.antt =====
-- A refused query whose request number is not safe to show.
use binbox_cli.Errors.{Error, ProviderErrorKind, provider_error}
use binbox_cli.Text.{text}

abbrev refused : Error
refused = provider_error (record {
  kind = ProviderErrorKind.forbidden;
  service = text "ec2";
  operation = text "DescribeInstances";
  code = text "UnauthorizedOperation";
  request_id = text "id with spaces";
})
