-- ===== src/Tests/Runs.antt =====
-- Each theorem with hypotheses, applied to a stream, a buffer or a packer written out.
use btls.Prelude.{
  ℕ, ◌≡◌, refl, inl, inr, true, false, none, List, [], ◌∷◌, ◌++◌, arith, flatten, drop, ◌||◌,
}
use btls.Bio.{no_retry}
use btls.Ssl.Seal.Laws.{Sealing}
use btls.Ssl.Stream
use btls.Ssl.Stream.{ssl_write}
use btls.Ssl.Stream.Calm.{write-some, read_uninit-some}
use btls.Ssl.Stream.Sealing.{Reports, ssl_write-Reports, Written, write-Written}
use btls.Ssl.Stream.Opening.{Got, read_uninit-Got}
use btls.Ssl.Stream.Laws.{StreamLogs}
use btls.Tokio.Budget.{seal_budget, legacy}
use btls.Tokio.Budget.Rule.{seal_budget-eq-legacy}
use btls.Tokio.Packer.{Packer, next_record, advance}
use btls.Tokio.Packer.Rest
use btls.Tokio.Packer.Rest.{remaining, remaining-advance}
use btls.Tokio.Packer.Next.{Next, next_record-Next}
use btls.Tokio.ReadBuffer
use btls.Tokio.ReadBuffer.Order.{Delivers, read-Delivers}
use btls.Tokio.WriteBuffer
use btls.Tokio.WriteBuffer.{WriteBuffer}
use btls.Tokio.WriteBuffer.Room
use btls.Tokio.WriteBuffer.Room.{Keeps, make_room-Keeps, push-buffered}
use btls.Tokio.WriteBuffer.Drain.{sent, Flushed, drain-Flushed}
use btls.Tokio.WriteBuffer.Retry.{Retried, retry-Retried}
use btls.Tokio.WriteBuffer.Last.{write_last-sent}
use btls.Tokio.Wrapper.{stream}
use btls.Tokio.Wrapper.Log.{Ready, ciphertext, stream-logs}
use btls.Tokio.Write.{Tls, write_records, record_loop}
use btls.Tokio.Write.Loop.{Stops, record_loop-Stops}
use btls.Tokio.Write.Cipher.{GainsTo}
use btls.Tokio.Write.Lossless.{write_records-Gains}
use btls.Tokio.Write.Whole.{write_records-Told}
use btls.Tokio.Write.Plain.{Told}
use btls.Tokio.Poll.{poll_read, poll_shutdown}
use btls.Tokio.Poll.Reading.{Given, poll_read-Given}
use btls.Tokio.Poll.Closing.{Closed, poll_shutdown-Closed}
use btls.Tests.Engine.{Pipe, pipe, pipe-IsHost, App, engine, engine-IsBoring, engine-calm}

-- A transport that takes five bytes and has four to give.
abbrev five : Pipe
five = record { room = 5; out = []; inbox = 1 ∷ 2 ∷ 3 ∷ 4 ∷ []; handed = [] }

-- Three bytes written of seven.
abbrev waiting : WriteBuffer
waiting = record {
  bytes = 10 ∷ 11 ∷ 12 ∷ 13 ∷ 14 ∷ 15 ∷ 16 ∷ [];
  capacity = 8;
  pos = 3;
  blocked = false;
}

waiting-IsValid : Room.IsValid waiting
waiting-IsValid = record { within = inl (omega arith); allocated = omega arith }

abbrev started : Tls App Pipe
started = record {
  conn = ([], []);
  bio = record {
    stream = record {
      transport = five;
      read_buf = ReadBuffer.default;
      write_buf = waiting;
      write_through = false;
      shutdown_sent = false;
      read_end = none;
    };
    error = none;
    panic = none;
    dtls_mtu_size = 0;
    retry = no_retry;
  };
}

abbrev hello : List (List ℕ)
hello = (104 ∷ []) ∷ [] ∷ (101 ∷ 108 ∷ 108 ∷ []) ∷ (111 ∷ []) ∷ []

abbrev packer : Packer
packer = record { bufs = hello; i = 0; off = 0; limit = 3; scratch = [] }

packer-IsValid : Rest.IsValid packer
packer-IsValid = record { within = omega arith; limited = omega arith }

write_records_example :
    Told engine-IsBoring pipe 1
      (engine.sealed started.conn)
      (flatten hello)
      (write_records engine pipe 1 started hello)
write_records_example =
    write_records-Told engine-IsBoring pipe 1 hello started
      (write-some engine (stream pipe) engine-calm)

drain_example : Flushed pipe-IsHost waiting five (WriteBuffer.drain pipe waiting five)
drain_example = drain-Flushed pipe-IsHost waiting five waiting-IsValid

retry_example : Retried pipe-IsHost waiting five (WriteBuffer.retry pipe waiting five)
retry_example = retry-Retried pipe-IsHost waiting five waiting-IsValid

write_last_example :
    let (w', s') = WriteBuffer.write_last pipe waiting five (20 ∷ 21 ∷ []) in
    (sent pipe-IsHost w' s' ≡ sent pipe-IsHost waiting five ++ 20 ∷ 21 ∷ [])
    × Room.IsValid w'
    × (w'.blocked ≡ (
        WriteBuffer.refused pipe (WriteBuffer.send_last pipe waiting five (20 ∷ 21 ∷ [])).0
        || waiting.blocked))
write_last_example = write_last-sent pipe-IsHost waiting five (20 ∷ 21 ∷ []) waiting-IsValid

push_example :
    (WriteBuffer.buffered (WriteBuffer.push pipe waiting (20 ∷ []))
      ≡ WriteBuffer.buffered waiting ++ 20 ∷ [])
    × Room.IsValid (WriteBuffer.push pipe waiting (20 ∷ []))
    × ((WriteBuffer.push pipe waiting (20 ∷ [])).blocked ≡ waiting.blocked)
push_example = push-buffered pipe-IsHost waiting (20 ∷ []) waiting-IsValid

seal_budget_example : seal_budget 4096 22 100 2000 200000 ≡ legacy 4096 22 100 2000 200000
seal_budget_example =
    seal_budget-eq-legacy 4096 22 100 2000 200000 (omega arith) (omega arith) (omega arith)

next_record_example : Next packer (next_record packer)
next_record_example = next_record-Next packer packer-IsValid

advance_example :
    (remaining (advance packer 3) ≡ drop 3 (remaining packer)) × Rest.IsValid (advance packer 3)
advance_example = remaining-advance packer 3 packer-IsValid (omega arith)

read_example : Delivers pipe-IsHost 2 [] (ReadBuffer.read pipe ReadBuffer.default five 2)
read_example = read-Delivers pipe-IsHost 2 [] ReadBuffer.default five (inr (refl, refl)) refl

stream_example : StreamLogs (stream pipe) (Ready pipe-IsHost) (ciphertext pipe-IsHost)
stream_example = stream-logs pipe-IsHost

write_example :
    Written engine-IsBoring
      (stream pipe)
      []
      (5 ∷ 6 ∷ [])
      (Stream.write engine (stream pipe) 1 (5 ∷ 6 ∷ []) started)
write_example = write-Written engine-IsBoring (stream pipe) 1 [] (5 ∷ 6 ∷ []) started refl

ssl_write_example :
    Reports engine-IsBoring
      (stream pipe)
      (engine.sealed started.conn)
      (5 ∷ 6 ∷ [])
      (ssl_write engine (stream pipe) (5 ∷ 6 ∷ []) started)
ssl_write_example = ssl_write-Reports engine-IsBoring (stream pipe) (5 ∷ 6 ∷ []) started

read_uninit_example :
    Got engine-IsBoring (stream pipe) [] 3 (Stream.read_uninit engine (stream pipe) 2 3 started)
read_uninit_example = read_uninit-Got engine-IsBoring (stream pipe) 2 3 [] started refl

record_loop_example :
    Stops engine-IsBoring pipe 1 []
      (flatten hello)
      (record_loop engine pipe 1 5 6 packer 0 true started)
record_loop_example =
    record_loop-Stops engine-IsBoring pipe 1 [] (flatten hello) 6 5 0 packer true started
      (write-some engine (stream pipe) engine-calm) packer-IsValid refl (omega arith, refl)
      (omega arith)

poll_shutdown_example :
    Closed engine-IsBoring pipe-IsHost started (poll_shutdown engine pipe started)
poll_shutdown_example = poll_shutdown-Closed engine-IsBoring pipe-IsHost started waiting-IsValid

poll_read_example :
    Given engine-IsBoring pipe 1 (engine.opened started.conn) 3 (poll_read engine pipe 1 3 started)
poll_read_example =
    poll_read-Given engine-IsBoring pipe 1 3 started
      (read_uninit-some engine (stream pipe) engine-calm)

write_records-Gains_example :
    GainsTo engine-IsBoring pipe-IsHost 1 started (write_records engine pipe 1 started hello)
write_records-Gains_example =
    write_records-Gains engine-IsBoring pipe-IsHost 1 hello started waiting-IsValid
