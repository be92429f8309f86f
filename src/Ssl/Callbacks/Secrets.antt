-- ===== src/Ssl/Callbacks/Secrets.antt =====
-- The callbacks of btls/src/ssl/callbacks.rs about keys, pre-shared secrets, tickets and sessions.
use btls.Prelude.{
  ℕ, zero, suc, ℤ, pos, negsuc, ◌||◌, Bool, Option, none, some, List, [], ◌∷◌, leb, ◌==◌,
  if◌then◌else◌,
}
use btls.Io.{ErrorStack, Fallible, fine, wrong}
use btls.Ssl.Async.{
  Result, ok, err, returned, panicked, PrivateKeyMethodError, failure, key_retry,
  GetSessionPendingError,
}
use btls.Ssl.Callbacks.{PrivateKeyResult, key_success, key_failure, key_again, as_u32, expecting}
use btls.Ssl.Callbacks.Handshake.{Done}

module _ {S : Type 0} where
  -- The length that a PSK callback reports, and the errors that it puts.
  psk_reply : Fallible ℕ × S → Done S (ℕ × ErrorStack)
  psk_reply (fine psk_len, s) = (returned (as_u32 psk_len, []), s)
  psk_reply (wrong e, s) = (returned (0, e), s)

  -- `raw_client_psk`: the closure has the hint and the lengths of the two slices that it fills.
  unfoldable pub raw_client_psk :
      Option (Option (List ℕ) → ℕ → ℕ → S → Fallible ℕ × S)
      → Option (List ℕ)
      → ℕ
      → ℕ
      → S
      → Done S (ℕ × ErrorStack)
  unfolding psk_reply
  raw_client_psk callback hint max_identity_len max_psk_len s =
      expecting callback s (λ f. psk_reply (f hint max_identity_len max_psk_len s))

  -- `raw_server_psk`
  unfoldable pub raw_server_psk :
      Option (Option (List ℕ) → ℕ → S → Fallible ℕ × S)
      → Option (List ℕ)
      → ℕ
      → S
      → Done S (ℕ × ErrorStack)
  unfolding psk_reply
  raw_server_psk callback identity max_psk_len s =
      expecting callback s (λ f. psk_reply (f identity max_psk_len s))

  -- `raw_private_key_callback`: the result, and what it left in `out_len`.
  unfoldable pub key_reply :
      ℕ → ℕ → Done S (Result ℕ PrivateKeyMethodError) → Done S (PrivateKeyResult × ℕ)
  key_reply max_out out_len (returned (ok written), s) =
      if leb written max_out then (returned (key_success, written), s) else (panicked, s)
  key_reply max_out out_len (returned (err failure), s) = (returned (key_failure, out_len), s)
  key_reply max_out out_len (returned (err key_retry), s) = (returned (key_again, out_len), s)
  key_reply max_out out_len (panicked, s) = (panicked, s)

  unfoldable pub raw_private_key_callback :
      {M : Type 0}
      → Option M
      → (M → ℕ → S → Done S (Result ℕ PrivateKeyMethodError))
      → ℕ
      → ℕ
      → S
      → Done S (PrivateKeyResult × ℕ)
  unfolding key_reply
  raw_private_key_callback method callback max_out out_len s =
      expecting method s (λ m. key_reply max_out out_len (callback m max_out s))

-- The methods of `PrivateKeyMethod` for an implementation `M`: each has the length of the output.
pub record KeyMethod (S : Type 0) : Type 0 where
  pub sign : List ℕ → ℕ → ℕ → S → Done S (Result ℕ PrivateKeyMethodError)
  pub decrypt : List ℕ → ℕ → S → Done S (Result ℕ PrivateKeyMethodError)
  pub complete : ℕ → S → Done S (Result ℕ PrivateKeyMethodError)

module _ {S : Type 0} where
  -- `raw_sign`, `raw_decrypt` and `raw_complete`
  unfoldable pub raw_sign :
      Option (KeyMethod S) → List ℕ → ℕ → ℕ → ℕ → S → Done S (PrivateKeyResult × ℕ)
  unfolding raw_private_key_callback
  raw_sign method input algorithm max_out out_len s =
      raw_private_key_callback method (λ m. m.sign input algorithm) max_out out_len s

  unfoldable pub raw_decrypt :
      Option (KeyMethod S) → List ℕ → ℕ → ℕ → S → Done S (PrivateKeyResult × ℕ)
  unfolding raw_private_key_callback
  raw_decrypt method input max_out out_len s =
      raw_private_key_callback method (λ m. m.decrypt input) max_out out_len s

  unfoldable pub raw_complete : Option (KeyMethod S) → ℕ → ℕ → S → Done S (PrivateKeyResult × ℕ)
  unfolding raw_private_key_callback
  raw_complete method max_out out_len s =
      raw_private_key_callback method (λ m. m.complete) max_out out_len s

-- `raw_get_session`: the pointer that it returns; of a session the caller takes over the reference,
-- since `*copy` is set to 0.
pub data SessionReply (X : Type 0) : Type 0 where
  session : X → SessionReply X
  no_session magic_pending : SessionReply X

-- `TicketKeyCallbackResult`, and its `From` into `c_int`
pub data TicketKeyCallbackResult : Type 0 where
  ticket_error ticket_noop ticket_success decrypt_success_renew : TicketKeyCallbackResult

unfoldable pub ticket_c_int : TicketKeyCallbackResult → ℤ
ticket_c_int ticket_error = negsuc 0
ticket_c_int ticket_noop = pos 0
ticket_c_int ticket_success = pos 1
ticket_c_int decrypt_success_renew = pos 2

abbrev pub zeroed : ℕ → List ℕ
zeroed zero = []
zeroed (suc n) = 0 ∷ zeroed n

-- What the ticket callback works on: `key_name` of 16 bytes and `iv` of `EVP_MAX_IV_LENGTH` bytes.
pub record TicketBuffers : Type 0 where
  pub key_name : List ℕ
  pub iv : List ℕ

-- `SSL_INFO_CALLBACK` values: `Alert` for the two alert modes.
pub data InfoValue : Type 0 where
  unit_value : InfoValue
  alert_value : ℕ → InfoValue

module _ {S : Type 0} where
  unfoldable pub session_reply :
      {X : Type 0}
      → Done S (Result (Option X) GetSessionPendingError)
      → ℕ
      → Done S (SessionReply X × ℕ)
  session_reply (returned (ok (some x)), s) copy = (returned (session x, 0), s)
  session_reply (returned (ok none), s) copy = (returned (no_session, copy), s)
  session_reply (returned (err e), s) copy = (returned (magic_pending, copy), s)
  session_reply (panicked, s) copy = (panicked, s)

  unfoldable pub raw_get_session :
      {X : Type 0}
      → Option (List ℕ → S → Done S (Result (Option X) GetSessionPendingError))
      → List ℕ
      → ℕ
      → S
      → Done S (SessionReply X × ℕ)
  unfolding session_reply
  raw_get_session callback id copy s = expecting callback s (λ f. session_reply (f id s) copy)

  ticket_reply : TicketKeyCallbackResult × TicketBuffers × S → Done S (ℤ × TicketBuffers)
  unfolding ticket_c_int
  ticket_reply (r, b, s) = (returned (ticket_c_int r, b), s)

  -- `raw_ticket_key`: the buffers are zeroed where a ticket is made (`encrypt` is 1).
  unfoldable pub raw_ticket_key :
      Option (TicketBuffers → Bool → S → TicketKeyCallbackResult × TicketBuffers × S)
      → ℕ
      → TicketBuffers
      → ℕ
      → S
      → Done S (ℤ × TicketBuffers)
  unfolding ticket_reply
  raw_ticket_key callback max_iv b encrypt s =
      let enc = encrypt == 1 in
      expecting callback s (λ f.
        ticket_reply
          (f (if enc then record { key_name = zeroed 16; iv = zeroed max_iv } else b) enc s))

  -- `raw_info_callback`; `read_alert` and `write_alert` are `SSL_CB_READ_ALERT` and `_WRITE_ALERT`.
  unfoldable pub raw_info_callback :
      ℕ → ℕ → Option (ℕ → InfoValue → S → S) → ℕ → ℕ → S → Done S (Unit {0})
  raw_info_callback read_alert write_alert callback mode value s = expecting callback s (λ f. (
    returned tt,
    f mode (if mode == read_alert || mode == write_alert then alert_value value else unit_value) s,
  ))

  -- `raw_new_session`: 1, since the session was consumed. `raw_remove_session` and `raw_keylog`
  -- only run the closure; a line is its bytes, which are ASCII.
  unfoldable pub raw_new_session : {X : Type 0} → Option (X → S → S) → X → S → Done S ℕ
  raw_new_session callback x s = expecting callback s (λ f. (returned 1, f x s))

  unfoldable pub raw_remove_session : {X : Type 0} → Option (X → S → S) → X → S → Done S (Unit {0})
  raw_remove_session callback x s = expecting callback s (λ f. (returned tt, f x s))

  unfoldable pub raw_keylog : Option (List ℕ → S → S) → List ℕ → S → Done S (Unit {0})
  raw_keylog callback line s = expecting callback s (λ f. (returned tt, f line s))
