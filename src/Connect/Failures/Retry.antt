-- ===== src/Connect/Failures/Retry.antt =====
-- When an attempt is worth repeating.
use beta.Base.{Bool, ◌||◌, Text, text_eq, ◌≡◌, refl, arith}
use beta.Connect.Failures.{
  Error, TsError, classify_connect_error, classify_server_refusal, connect_ts, command_error,
  connect_failed_all, no_errors, first_error, dns_text, timeout_text, network_text,
  server_full_text, unknown_text,
}

-- The kinds of failure that pass by themselves.
abbrev pub is_transient : Text → Bool
is_transient kind =
    text_eq kind dns_text
    || text_eq kind timeout_text
    || text_eq kind network_text
    || text_eq kind server_full_text
    || text_eq kind unknown_text

refusal-Transient :
    (e : TsError) → (classify_server_refusal e).1 ≡ is_transient (classify_server_refusal e).0
unfolding classify_server_refusal
refusal-Transient e = ground arith

-- Whether a failure is retryable follows from its kind, however deep the error is wrapped: it is
-- for dns, timeout, network, server_full and unknown, and for no other kind.
classify_connect_error-Transient :
    (e : Error) → (classify_connect_error e).1 ≡ is_transient (classify_connect_error e).0
unfolding classify_connect_error
classify_connect_error-Transient (connect_ts e) = refusal-Transient e
classify_connect_error-Transient (command_error e) = refusal-Transient e
classify_connect_error-Transient (connect_failed_all no_errors) = refl
classify_connect_error-Transient (connect_failed_all (first_error e es)) =
    classify_connect_error-Transient e
classify_connect_error-Transient e = ground arith
