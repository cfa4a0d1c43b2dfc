-- ===== src/Errors.antt =====
-- The exceptions that the modelled code raises, as values, with the answers of common/errors.py.
use zsequencer.Prelude.{◌≡◌, refl, ◌⊎◌, inl, inr, ℕ, String, Bool, true, false}

-- The subclasses of `BaseHTTPError`.
pub data HttpError : Type 0 where
  invalid_request is_sequencer is_not_sequencer not_synced invalid_sequencer issue_not_found
        invalid_timestamp sequencer_change_not_approved permission_denied invalid_node_version
        is_paused is_not_posting_node batches_limit_exceeded batch_size_exceeded :
      HttpError

-- The class attribute `status_code`.
unfoldable pub status_code : HttpError → ℕ
status_code invalid_request = 400
status_code is_sequencer = 403
status_code is_not_sequencer = 403
status_code not_synced = 503
status_code invalid_sequencer = 400
status_code issue_not_found = 404
status_code invalid_timestamp = 400
status_code sequencer_change_not_approved = 403
status_code permission_denied = 403
status_code invalid_node_version = 400
status_code is_paused = 503
status_code is_not_posting_node = 403
status_code batches_limit_exceeded = 429
status_code batch_size_exceeded = 429

-- `detail["error"]["code"]`, the name of the class.
unfoldable pub code : HttpError → String
code invalid_request = "InvalidRequestError"
code is_sequencer = "IsSequencerError"
code is_not_sequencer = "IsNotSequencerError"
code not_synced = "NotSyncedError"
code invalid_sequencer = "InvalidSequencerError"
code issue_not_found = "IssueNotFoundError"
code invalid_timestamp = "InvalidTimestampError"
code sequencer_change_not_approved = "SequencerChangeNotApprovedError"
code permission_denied = "PermissionDeniedError"
code invalid_node_version = "InvalidNodeVersionError"
code is_paused = "IsPausedError"
code is_not_posting_node = "IsNotPostingNodeError"
code batches_limit_exceeded = "BatchesLimitExceededError"
code batch_size_exceeded = "BatchSizeExceededError"

pub data Error : Type 0 where
  value_error runtime_error key_error index_error zero_division : Error
  type_error assertion_error : Error
  http_error : HttpError → Error

-- What a function returns, or the exception that it raises.
pub data Result {ℓ} (Value : Type ℓ) : Type ℓ where
  err : Error → Result Value
  ok : Value → Result Value

infixl 5 ◌>>=◌
-- The next step runs on the value, and an exception ends the function.
abbrev pub ◌>>=◌ {ℓ κ} : {V : Type ℓ} {W : Type κ} → Result V → (V → Result W) → Result W
err raised >>= next = err raised
ok value >>= next = next value

-- `if condition: raise error`
abbrev pub raise_if : HttpError → Bool → Result (Unit {0})
raise_if e true = err (http_error e)
raise_if e false = ok tt

pub Result-cases {ℓ} :
    {V : Type ℓ} (r : Result V) → ((a : V) × (r ≡ ok a)) ⊎ ((e : Error) × (r ≡ err e))
Result-cases (err e) = inr (e, refl)
Result-cases (ok a) = inl (a, refl)

-- A chain that succeeds has a first step that succeeds.
pub >>=-eq-ok {ℓ κ} :
    {V : Type ℓ} {W : Type κ} (r : Result V) (next : V → Result W) {w : W}
    → (r >>= next) ≡ ok w
    → (v : V) × (r ≡ ok v) × (next v ≡ ok w)
>>=-eq-ok (err raised) next e = cc
>>=-eq-ok (ok v) next e = (v, refl, e)

pub ok-eq-ok {ℓ} : {V : Type ℓ} {v w : V} → ok v ≡ ok w → v ≡ w
ok-eq-ok e = cc

pub err-not-ok {ℓ} : {V : Type ℓ} (x : Error) (v : V) → ¬ (err x ≡ ok v)
err-not-ok x v e = cc

-- A guard that lets the call go on has a false condition.
pub raise_if-ok : (e : HttpError) (b : Bool) {u : Unit {0}} → raise_if e b ≡ ok u → b ≡ false
raise_if-ok e true h = cc
raise_if-ok e false h = refl
