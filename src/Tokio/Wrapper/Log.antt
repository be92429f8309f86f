-- ===== src/Tokio/Wrapper/Log.antt =====
-- The wrapper under BoringSSL, and the ciphertext that is written to it.
use btls.Prelude.{
  [], inl, inr, ℕ, ◌≡◌, refl, sym, ap, ◌∙◌, List, ◌++◌, not, ◌&&◌, if_both, append_assoc,
}
use btls.Io.{IoResult, ok, err}
use btls.Ssl.Stream.Laws.{StreamLogs}
use btls.Tokio.Host.{Host, IsHost}
use btls.Tokio.ReadBuffer.Order.{wire-read}
use btls.Tokio.WriteBuffer
use btls.Tokio.WriteBuffer.{WriteBuffer, Drained}
use btls.Tokio.WriteBuffer.Room.{IsValid, push-buffered}
use btls.Tokio.WriteBuffer.Drain.{sent, Flushed, drain-Flushed}
use btls.Tokio.WriteBuffer.Last.{write_last-sent}
use btls.Tokio.Wrapper.{
  StreamWrapper, with_write_buf, read, take_record, write, after_drain, flush, stream,
}

module _ {S : Type 0} {h : Host S} (l : IsHost h) where
  -- The invariant, and all ciphertext handed to the wrapper: on the wire, then waiting.
  abbrev pub Ready : StreamWrapper S → Type 0
  Ready w = IsValid w.write_buf

  abbrev pub ciphertext : StreamWrapper S → List ℕ
  ciphertext w = sent l w.write_buf w.transport

  take_record-log :
      (buf : List ℕ) (w : StreamWrapper S)
      → Ready w
      → Ready (take_record h buf w) × (ciphertext (take_record h buf w) ≡ ciphertext w ++ buf)
  unfolding take_record
  take_record-log buf w v =
      let last = write_last-sent l w.write_buf w.transport buf v in
      let put = push-buffered l w.write_buf buf v in
      if_both (λ w'. Ready w' × (ciphertext w' ≡ ciphertext w ++ buf))
        (w.write_through && not w.write_buf.blocked) (last.1, last.0)
        (
          put.1,
          ap (λ x. h.wire w.transport ++ x) put.0 ∙ sym (append_assoc (h.wire w.transport) _ buf),
        )

  after_drain-log :
      (w : StreamWrapper S) (r : Drained h)
      → Flushed l w.write_buf w.transport r
      → Ready (after_drain h w r).1 × (ciphertext (after_drain h w r).1 ≡ ciphertext w)
  unfolding after_drain
  after_drain-log w (ok u, b, s) f =
      (f.valid, ap (λ x. x ++ WriteBuffer.buffered b) (l.flushes s) ∙ f.sent_same)
  after_drain-log w (err e, b, s) f = (f.valid, f.sent_same)

  -- For a transport that keeps its contract: every operation of the wrapper keeps the invariant of the
  -- write buffer; `write` appends all its bytes to the ciphertext on the wire and in the buffer, and
  -- `read` and `flush` leave that as it was.
  pub stream-logs : StreamLogs (stream h) Ready ciphertext
  unfolding stream flush read write
  stream-logs = record {
    writes = λ b w v. take_record-log b w v;
    reads = λ n w v.
        (v, ap (λ x. x ++ WriteBuffer.buffered w.write_buf) (wire-read l n w.read_buf w.transport));
    flushes = λ w v. after_drain-log w _ (drain-Flushed l w.write_buf w.transport v);
  }

  -- A flush that returns `Ok` leaves nothing waiting; none touches `shutdown_sent`.
  abbrev pub FlushDone : StreamWrapper S → IoResult (Unit {0}) × StreamWrapper S → Type 0
  FlushDone w (ok _, w') =
      (WriteBuffer.buffered w'.write_buf ≡ []) × (w'.shutdown_sent ≡ w.shutdown_sent)
  FlushDone w (err e, w') = w'.shutdown_sent ≡ w.shutdown_sent

  polled-FlushDone :
      (w : StreamWrapper S) (b : WriteBuffer) (s : S) (r : IoResult (Unit {0}))
      → WriteBuffer.buffered b ≡ []
      → FlushDone w (r, with_write_buf w (b, s))
  polled-FlushDone w b s (ok _) e = (e, refl)
  polled-FlushDone w b s (err x) e = refl

  emptied :
      (w b : WriteBuffer) (t t' : S) (u : Unit {0})
      → Flushed l w t (ok u, b, t')
      → WriteBuffer.buffered b ≡ []
  emptied w b t t' u f = elim f.done [ inl (x, e, z) ↦ rw (e, z) | inr (e, x, lt) ↦ cc ]

  after_drain-FlushDone :
      (w : StreamWrapper S) (r : Drained h)
      → Flushed l w.write_buf w.transport r
      → FlushDone w (after_drain h w r)
  unfolding after_drain
  after_drain-FlushDone w (ok u, b, s) f =
      polled-FlushDone w b (h.poll_flush s).1 _ (emptied w.write_buf b w.transport s u f)
  after_drain-FlushDone w (err e, b, s) f = refl

  pub flush-FlushDone : (w : StreamWrapper S) → Ready w → FlushDone w (flush h w)
  unfolding flush
  flush-FlushDone w v =
      after_drain-FlushDone w (WriteBuffer.drain h w.write_buf w.transport)
        (drain-Flushed l w.write_buf w.transport v)

  -- What `flush` does to the invariant and the ciphertext.
  pub flush-log :
      (w : StreamWrapper S)
      → Ready w
      → Ready (flush h w).1 × (ciphertext (flush h w).1 ≡ ciphertext w)
  unfolding flush
  flush-log w v =
      after_drain-log w (WriteBuffer.drain h w.write_buf w.transport)
        (drain-Flushed l w.write_buf w.transport v)
