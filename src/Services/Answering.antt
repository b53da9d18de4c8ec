-- ===== src/Services/Answering.antt =====
-- What a client is answered by a service of services/. gRPC is outside: `unhandled` is the status that
-- it gives for a handler that raises, by what was raised.
use kd.Base.{◌≡◌, Text, Result, ok, raised}
use kd.Api.{Status}

abbrev pub answered {ℓ} :
    {R S : Type ℓ} → (unhandled : Text → Status) → R → Result (Status × R) × S → Status × R
answered unhandled default (ok result, s) = result
answered unhandled default (raised what, s) = (unhandled what, default)

pub answered-ok {ℓ} :
    {R S : Type ℓ} (unhandled : Text → Status) (default : R) (out : Result (Status × R) × S)
    (r : Status × R)
    → out.0 ≡ ok r
    → answered unhandled default out ≡ r
answered-ok unhandled default (ok result, s) r h = cc h
answered-ok unhandled default (raised what, s) r h = cc h
