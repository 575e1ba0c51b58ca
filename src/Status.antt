-- ===== src/Status.antt =====
-- include/lor/status.h and src/status.c: the failure statuses that the modules share, and the
-- sequencing `if (status != LOR_STATUS_OK) return status;`.
use Prim.Native.String.{String}
use liblor.Common.{◌≡◌, refl, ◌≢◌, ◌⊎◌, inl, inr, Option, none, some}

pub data Status : Type 0 where
  ok invalid_argument out_of_memory overflow system_error timed_out closed : Status

pub status_name : Status → String
status_name ok = "ok"
status_name invalid_argument = "invalid argument"
status_name out_of_memory = "out of memory"
status_name overflow = "overflow"
status_name system_error = "system error"
status_name timed_out = "timed out"
status_name closed = "closed"

-- A call that updates a state and returns a status; what follows runs on success only.
infixl 5 ◌>>=◌
abbrev pub ◌>>=◌ {ℓ} : {S : Type ℓ} → Status × S → (S → Status × S) → Status × S
(ok, s) >>= next = next s
(e, s) >>= next = (e, s)

-- A function that refuses a NULL reference and else works on what it refers to.
abbrev pub on_ref {ℓ} : {S : Type ℓ} → (S → Status × S) → Option S → Status × Option S
on_ref f none = (invalid_argument, none)
on_ref f (some s) = let (status, s') = f s in (status, some s')

-- Either the call succeeded and its continuation ran, or its failure was passed on.
pub bind-cases {ℓ} :
    {S : Type ℓ} (out : Status × S) (next : S → Status × S)
    → ((out.0 ≡ ok) × (out >>= next ≡ next out.1)) ⊎ ((out.0 ≢ ok) × (out >>= next ≡ out))
bind-cases (ok, s) next = inl (refl, refl)
bind-cases (invalid_argument, s) next = inr ((λ e. cc), refl)
bind-cases (out_of_memory, s) next = inr ((λ e. cc), refl)
bind-cases (overflow, s) next = inr ((λ e. cc), refl)
bind-cases (system_error, s) next = inr ((λ e. cc), refl)
bind-cases (timed_out, s) next = inr ((λ e. cc), refl)
bind-cases (closed, s) next = inr ((λ e. cc), refl)
