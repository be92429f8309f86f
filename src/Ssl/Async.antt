-- ===== src/Ssl/Async.antt =====
-- btls/src/ssl/async_callbacks.rs: callbacks that wait for a future kept in the connection's ex data.
pub mod Drive
pub mod Verify
use btls.Prelude.{ℕ, Option, none, some, List, [], ◌∷◌}

-- `Result<T, E>`
pub data Result (T E : Type 0) : Type 0 where
  ok : T → Result T E
  err : E → Result T E

-- `Poll<T>`
pub data Poll (T : Type 0) : Type 0 where
  ready : T → Poll T
  pending : Poll T

-- What a call comes to: its value, or a panic.
pub data Call (T : Type 0) : Type 0 where
  returned : T → Call T
  panicked : Call T

-- An `Ssl` as one callback sees it: the ex data at `TASK_WAKER_INDEX`, that at the index where the
-- callback keeps its future, and all else that the closures and the future can see.
pub record Ssl (W F G : Type 0) : Type 0 where
  pub task_waker : Option (Option W)
  pub future : Option (Option F)
  pub world : G

-- A future of the caller: a poll with a waker gives its output or the future that waits on. It has no
-- access to the connection.
pub data Step (F R : Type 0) : Type 0 where
  output : R → Step F R
  waits : F → Step F R

abbrev pub Poller : Type 0 → Type 0 → Type 0 → Type 0 → Type 0
Poller W F G R = W → F → G → Step F R × G

module _ {W F G : Type 0} where
  -- `SslRef::set_task_waker`
  unfoldable pub set_task_waker : Option W → Ssl W F G → Ssl W F G
  set_task_waker waker ssl = record ssl { task_waker = some waker }

module _ {W F G R T E : Type 0} (poll : Poller W F G R)
    (create_fut : Ssl W F G → Result F E × Ssl W F G) (into_result : R → Result T E) where
  -- The branch with a stored future: what its poll comes to.
  unfoldable pub resume : Ssl W F G → Step F R × G → Poll (Result T E) × Ssl W F G
  resume ssl (output r, g) = (ready (into_result r), record ssl { future = some none; world = g })
  resume ssl (waits f, g) = (pending, record ssl { future = some (some f); world = g })

  -- The first poll of a new future, which is stored only if it waits.
  unfoldable pub first_poll : Ssl W F G → Step F R × G → Poll (Result T E) × Ssl W F G
  first_poll ssl (output r, g) = (ready (into_result r), record ssl { world = g })
  first_poll ssl (waits f, g) = (pending, record ssl { future = some (some f); world = g })

  -- `create_fut(ssl_handle)?` and the poll after it, with the waker read before.
  unfoldable pub start : W → Result F E × Ssl W F G → Poll (Result T E) × Ssl W F G
  unfolding first_poll
  start w (ok f, ssl) = first_poll ssl (poll w f ssl.world)
  start w (err e, ssl) = (ready (err e), ssl)

  unfoldable pub with_waker : W → Option (Option F) → Ssl W F G → Poll (Result T E) × Ssl W F G
  unfolding resume start
  with_waker w (some (some f)) ssl = resume ssl (poll w f ssl.world)
  with_waker w (some none) ssl = start w (create_fut ssl)
  with_waker w none ssl = start w (create_fut ssl)

  unfoldable pub with_ex_data_waker :
      Option (Option W) → Ssl W F G → Call (Poll (Result T E)) × Ssl W F G
  unfolding with_waker
  with_ex_data_waker (some (some w)) ssl =
      let (r, ssl') = with_waker w ssl.future ssl in (returned r, ssl')
  with_ex_data_waker (some none) ssl = (panicked, ssl)
  with_ex_data_waker none ssl = (panicked, ssl)

  -- `with_ex_data_future`; without a task waker it panics.
  unfoldable pub with_ex_data_future : Ssl W F G → Call (Poll (Result T E)) × Ssl W F G
  unfolding with_ex_data_waker
  with_ex_data_future ssl = with_ex_data_waker ssl.task_waker ssl

-- `SslVerifyError`, `SelectCertError` and `PrivateKeyMethodError`: the errors that the adapters return.
pub data SslVerifyError : Type 0 where
  invalid : ℕ → SslVerifyError
  verify_retry : SslVerifyError

pub data SelectCertError : Type 0 where
  cert_error cert_retry : SelectCertError

pub data PrivateKeyMethodError : Type 0 where
  failure key_retry : PrivateKeyMethodError

pub data GetSessionPendingError : Type 0 where
  session_pending : GetSessionPendingError

-- `SelectCertAction`
pub data SelectCertAction : Type 0 where
  success disable_ech : SelectCertAction

-- A closure that a future put out, run on the connection.
abbrev pub Finisher : Type 0 → Type 0 → Type 0 → Type 0
Finisher C S T = C → S → T × S

module _ {W F G C : Type 0} (poll : Poller W F G (Result C ℕ))
    (call : Finisher C (Ssl W F G) (Result (Unit {0}) ℕ)) where
  unfoldable pub verified :
      Result (Unit {0}) ℕ × Ssl W F G → Result (Unit {0}) SslVerifyError × Ssl W F G
  verified (ok u, ssl) = (ok u, ssl)
  verified (err alert, ssl) = (err (invalid alert), ssl)

  unfoldable pub finish_verify :
      Call (Poll (Result C ℕ)) × Ssl W F G → Call (Result (Unit {0}) SslVerifyError) × Ssl W F G
  unfolding verified
  finish_verify (returned (ready (err alert)), ssl) = (returned (err (invalid alert)), ssl)
  finish_verify (returned (ready (ok finish)), ssl) =
      let (r, ssl') = verified (call finish ssl) in (returned r, ssl')
  finish_verify (returned pending, ssl) = (returned (err verify_retry), ssl)
  finish_verify (panicked, ssl) = (panicked, ssl)

  -- `async_custom_verify_callback`; an alert is its code.
  unfoldable pub async_custom_verify :
      (Ssl W F G → Result F ℕ × Ssl W F G)
      → Ssl W F G
      → Call (Result (Unit {0}) SslVerifyError) × Ssl W F G
  unfolding with_ex_data_future finish_verify
  async_custom_verify callback ssl = finish_verify (with_ex_data_future poll callback (λ r. r) ssl)

-- `AsyncSelectCertError` and `AsyncPrivateKeyMethodError`
pub data AsyncError : Type 0 where
  async_error : AsyncError

module _ {W F G C T : Type 0} (poll : Poller W F G (Result C AsyncError))
    (call : Finisher C (Ssl W F G) (Result T AsyncError)) (into_action : T → SelectCertAction) where
  unfoldable pub selected :
      Result T AsyncError × Ssl W F G → Result SelectCertAction SelectCertError × Ssl W F G
  selected (ok t, ssl) = (ok (into_action t), ssl)
  selected (err e, ssl) = (err cert_error, ssl)

  unfoldable pub finish_select :
      Call (Poll (Result C AsyncError)) × Ssl W F G
      → Call (Result SelectCertAction SelectCertError) × Ssl W F G
  unfolding selected
  finish_select (returned (ready (err e)), ssl) = (returned (err cert_error), ssl)
  finish_select (returned (ready (ok finish)), ssl) =
      let (r, ssl') = selected (call finish ssl) in (returned r, ssl')
  finish_select (returned pending, ssl) = (returned (err cert_retry), ssl)
  finish_select (panicked, ssl) = (panicked, ssl)

  -- `async_select_certificate_callback`; the ClientHello is part of the connection here.
  unfoldable pub async_select_certificate :
      (Ssl W F G → Result F AsyncError × Ssl W F G)
      → Ssl W F G
      → Call (Result SelectCertAction SelectCertError) × Ssl W F G
  unfolding with_ex_data_future finish_select
  async_select_certificate callback ssl =
      finish_select (with_ex_data_future poll callback (λ r. r) ssl)

module _ {W F G C : Type 0} (poll : Poller W F G (Result C AsyncError))
    (call : Finisher C (Ssl W F G) (Result ℕ AsyncError)) where
  unfoldable pub written :
      Result ℕ AsyncError × Ssl W F G → Result ℕ PrivateKeyMethodError × Ssl W F G
  written (ok n, ssl) = (ok n, ssl)
  written (err e, ssl) = (err failure, ssl)

  unfoldable pub finish_key :
      Call (Poll (Result C AsyncError)) × Ssl W F G
      → Call (Result ℕ PrivateKeyMethodError) × Ssl W F G
  unfolding written
  finish_key (returned (ready (err e)), ssl) = (returned (err failure), ssl)
  finish_key (returned (ready (ok finish)), ssl) =
      let (r, ssl') = written (call finish ssl) in (returned r, ssl')
  finish_key (returned pending, ssl) = (returned (err key_retry), ssl)
  finish_key (panicked, ssl) = (panicked, ssl)

  -- `with_private_key_method`; the output buffer is part of the connection here.
  unfoldable pub with_private_key_method :
      (Ssl W F G → Result F AsyncError × Ssl W F G)
      → Ssl W F G
      → Call (Result ℕ PrivateKeyMethodError) × Ssl W F G
  unfolding with_ex_data_future finish_key
  with_private_key_method create_fut ssl =
      finish_key (with_ex_data_future poll create_fut (λ r. r) ssl)

  -- `AsyncPrivateKeyMethodBridge::complete` of a release build
  unfoldable pub bridge_complete : Ssl W F G → Call (Result ℕ PrivateKeyMethodError) × Ssl W F G
  unfolding with_private_key_method
  bridge_complete ssl = with_private_key_method (λ s. (err async_error, s)) ssl

abbrev ok_or : {T : Type 0} → Option T → Result T (Unit {0})
ok_or none = err tt
ok_or (some t) = ok t

abbrev ok_or_create : {F S : Type 0} → (S → Option F × S) → S → Result F (Unit {0}) × S
ok_or_create callback s = let (o, s') = callback s in (ok_or o, s')

module _ {W F G C X : Type 0} (poll : Poller W F G (Option C))
    (call : Finisher C (Ssl W F G) (Option X)) where
  unfoldable pub finish_session :
      Call (Poll (Result C (Unit {0}))) × Ssl W F G
      → Call (Result (Option X) GetSessionPendingError) × Ssl W F G
  finish_session (returned (ready (err u)), ssl) = (returned (ok none), ssl)
  finish_session (returned (ready (ok finish)), ssl) =
      let (r, ssl') = call finish ssl in (returned (ok r), ssl')
  finish_session (returned pending, ssl) = (returned (err session_pending), ssl)
  finish_session (panicked, ssl) = (panicked, ssl)

  -- The closure of `set_async_get_session_callback`
  unfoldable pub async_get_session :
      (Ssl W F G → Option F × Ssl W F G)
      → Ssl W F G
      → Call (Result (Option X) GetSessionPendingError) × Ssl W F G
  unfolding with_ex_data_future finish_session
  async_get_session callback ssl =
      finish_session (with_ex_data_future poll (ok_or_create callback) ok_or ssl)
