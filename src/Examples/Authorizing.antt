-- ===== src/Examples/Authorizing.antt =====
-- The theorems about the authorization engine, on the host of the samples.
use mellivor_kernel.Prelude.{◌≡◌, ◌↔◌, refl, true, false, some, [], ◌∷◌}
use mellivor_kernel.Python.{Returns, is_blank}
use mellivor_kernel.World.{note, audited, published}
use mellivor_kernel.Execution.Request.{tool}
use mellivor_kernel.Tools.Permissions.Sets.{Covers}
use mellivor_kernel.Execution.Engine.Closed.{KeepsApart}
use mellivor_kernel.Execution.Engine.Lifecycle.{is_lifecycle}
use mellivor_kernel.Authorization.{
  AuthorizationRequest, authorize, check, audit_record, decision_event,
}
use mellivor_kernel.Authorization.Decision.{IsDecision, required, authorize_iff}
use mellivor_kernel.Authorization.Check.{Answers, check_lem}
use mellivor_kernel.Authorization.Authorizer.{IsForeign, as_authorizer, as_authorizer-KeepsApart}
use mellivor_kernel.Examples.Samples.{
  file_read, host_tools, host_authorization, new_world, read_request,
}

abbrev read_authorization : AuthorizationRequest
read_authorization = record {
  target = tool;
  operation = "read_file";
  granted_permissions = file_read ∷ [];
}

authorize_iff_example :
    Returns
      (λ r.
        IsDecision r
        × ((r.granted ≡ true) ↔ Covers (file_read ∷ []) (required host_tools tool "read_file")))
      (authorize host_authorization read_authorization)
authorize_iff_example = authorize_iff host_authorization read_authorization

pub read_request-named : is_blank read_request.operation ≡ false
unfolding is_blank
read_request-named = refl

check_lem_example :
    Returns
      (λ r.
        Answers host_authorization read_request ("filesystem.read" ∷ []) r
        × ((check host_authorization read_request ("filesystem.read" ∷ []) new_world).1.trace
            ≡ note host_authorization.audit_sink
                (audited (audit_record host_authorization read_request r))
                (note host_authorization.event_bus
                  (published (decision_event host_authorization read_request r))
                  [])))
      (check host_authorization read_request ("filesystem.read" ∷ []) new_world).0
check_lem_example =
    check_lem host_authorization read_request ("filesystem.read" ∷ []) new_world read_request-named
      (λ e env. refl) (λ a env. refl)

pub is_lifecycle-IsForeign : IsForeign is_lifecycle
is_lifecycle-IsForeign = record {
  no_record = λ a. refl;
  no_grant = λ id t o ps. refl;
  no_denial = λ id t o reason. refl;
}

as_authorizer-KeepsApart_example :
    KeepsApart is_lifecycle (some (as_authorizer host_authorization)) read_request []
as_authorizer-KeepsApart_example =
    as_authorizer-KeepsApart host_authorization read_request (λ e env. refl) (λ a env. refl)
      read_request-named is_lifecycle [] is_lifecycle-IsForeign
