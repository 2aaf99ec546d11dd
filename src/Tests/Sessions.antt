-- ===== src/Tests/Sessions.antt =====
-- Examples for the two sides of a session.
use mathlib.Core.Option
use styrn.Common.{◌≡◌, ◌≢◌, ◌↔◌, refl, true, false, some, [], ◌∷◌, ◌++◌, Result, ok, err, arith}
use styrn.Json.Defs.{object, end, get}
use styrn.Output.Code.{ErrorCode, protocol_malformed, remote_execution_failed}
use styrn.Rpc.Frame.Encode.{serialize}
use styrn.Common.Decimal.{decimal}
use styrn.Rpc.Id.{request_id}
use styrn.Rpc.Wire.{newline}
use styrn.Rpc.Wire.Reader.{read}
use styrn.Rpc.Wire.Writer.{Sink, write, write_bytes, write_all, write_room}
use styrn.Rpc.Wire.Lines.{read_sent}
use styrn.Rpc.Server.{remote, Session, go_on, stop, turn, serve}
use styrn.Rpc.Server.Rounds.{IsServed, malformed_notice, turn-IsServed, turn_replay}
use styrn.Rpc.Server.Termination.{serve_total}
use styrn.Rpc.Process.{abort, Process, new, new_ssh}
use styrn.Rpc.Client.{terminate, receive, Client, call, connect, finish_session}
use styrn.Rpc.Client.Session.{Ends, call-Ends}
use styrn.Rpc.Client.Opening.{Opens, connect-Opens, finish_session_iff}
use styrn.Rpc.Exchange.{asked, call_gets, served, called, exchange_data, exchange_failure}
use styrn.Tests.Crates.{uuid, laws, json, hello, payload, asking, answering, failing, pipe, handle}
use styrn.Tests.Streams.{
  asking-IsSendable, answering-IsSendable, asking_to_failing, failing-IsSendable,
}

abbrev session : Session
session = record {
  next_id = 1;
  source = record { bytes = (113 ∷ []) ++ newline ∷ []; fails = false };
  sink = pipe;
}

abbrev asked_pipe : Sink
asked_pipe = record pipe { written = 113 ∷ newline ∷ [] }

abbrev answered_pipe : Sink
answered_pipe = record pipe { written = 114 ∷ newline ∷ [] }

abbrev client : Client
client = record {
  process =
      new (record { wait = some true }) pipe
        (record { bytes = (114 ∷ []) ++ newline ∷ []; fails = false }) true;
  hello = hello;
  next_id = 1;
  terminated = false;
}

first_id : request_id 1 ≡ "c1"
unfolding request_id decimal
first_id = refl

asks : write uuid (json answering) asking pipe ≡ (ok tt, asked_pipe)
unfolding write write_bytes write_all write_room serialize get Option.bind
asks = refl

answers : write uuid (json answering) answering pipe ≡ (ok tt, answered_pipe)
unfolding write write_bytes write_all write_room serialize get Option.bind
answers = refl

asks_failing : write uuid (json failing) asking pipe ≡ (ok tt, asked_pipe)
unfolding write write_bytes write_all write_room serialize get Option.bind
asks_failing = refl

fails : write uuid (json failing) failing pipe ≡ (ok tt, answered_pipe)
unfolding write write_bytes write_all write_room serialize get Option.bind
fails = refl

exchange_data_example :
    (turn uuid (json answering) (handle (ok payload)) session
      ≡ go_on (served session [] answered_pipe))
    × (call uuid (json answering) "doctor" (object end) client
        ≡ (ok payload, called client [] asked_pipe))
unfolding request_id decimal
exchange_data_example =
    exchange_data uuid (json answering) laws (handle (ok payload)) "doctor" (object end) client
      session (113 ∷ []) (114 ∷ []) [] [] pipe asked_pipe answered_pipe refl refl (ground arith)
      refl asks refl refl asking-IsSendable payload refl answers answering-IsSendable

exchange_failure_example :
    (turn uuid (json failing) (handle (err remote)) session
      ≡ go_on (served session [] answered_pipe))
    × (call uuid (json failing) "doctor" (object end) client
        ≡ (err remote_execution_failed, called client [] asked_pipe))
unfolding request_id decimal
exchange_failure_example =
    exchange_failure uuid (json failing) laws (handle (err remote)) "doctor" (object end) client
      session (113 ∷ []) (114 ∷ []) [] [] pipe asked_pipe answered_pipe refl refl (ground arith)
      refl asks_failing refl refl asking_to_failing refl fails failing-IsSendable

turn-IsServed_example :
    IsServed uuid (json answering) (handle (ok payload)) session (served session [] answered_pipe)
turn-IsServed_example =
    turn-IsServed uuid (json answering) (handle (ok payload)) session
      (served session [] answered_pipe) exchange_data_example.0

read-asking :
    read uuid (json answering) session.source
    ≡ (ok (some asking), record { bytes = []; fails = false })
read-asking = read_sent uuid (json answering) laws asking (113 ∷ []) [] false asking-IsSendable

abbrev later : Session
later = record session { next_id = 2 }

turn_replay_example :
    turn uuid (json answering) (handle (ok payload)) later
    ≡ stop
        (err protocol_malformed)
        (write uuid (json answering) (malformed_notice (request_id 1)) pipe).1
unfolding request_id decimal
turn_replay_example =
    turn_replay uuid (json answering) (handle (ok payload)) later
      (record { bytes = []; fails = false }) 1 "doctor" (object end) read-asking (omega arith)
      (omega arith)

serve_total_example :
    (r : Result ErrorCode (Unit {0}) × Sink) × (serve uuid
        (json answering)
        (handle (ok payload))
        2
        hello
        session.source
        pipe
      ≡ some r)
serve_total_example =
    serve_total uuid (json answering) (handle (ok payload)) 2 hello session.source pipe
      (omega arith)

call-Ends_example :
    Ends
      (call uuid (json answering) "doctor" (object end) client).0
      (call uuid (json answering) "doctor" (object end) client).1
call-Ends_example = call-Ends uuid (json answering) "doctor" (object end) client refl

abbrev starting : Process
starting =
    new_ssh (record { wait = some true }) pipe
      (record { bytes = (104 ∷ []) ++ newline ∷ []; fails = false }) true

connect-Opens_example :
    Opens uuid (json answering) "0.1.0" starting (connect uuid (json answering) "0.1.0" starting)
connect-Opens_example = connect-Opens uuid (json answering) "0.1.0" starting

finish_session_iff_example : (finish_session client ≡ ok tt) ↔ (
    (client.terminated ≡ false)
    × (client.process.child ≡ some (record { wait = some true }))
    × (client.process.stderr ≢ some false))
finish_session_iff_example = finish_session_iff client

-- The worker's response has another identifier than the next request.
abbrev ahead : Client
ahead = record client { next_id = 2 }

abbrev gone : Client
gone = terminate (record client {
  next_id = 3;
  process = record client.process {
    input = some asked_pipe;
    output = record { bytes = []; fails = false };
  };
})

asks_again : write uuid (json answering) (asked 2 "doctor" (object end)) pipe ≡ (ok tt, asked_pipe)
unfolding write write_bytes write_all write_room serialize get Option.bind
asks_again = refl

lost : call uuid (json answering) "doctor" (object end) ahead ≡ (err protocol_malformed, gone)
unfolding receive terminate abort request_id decimal
lost =
    call_gets uuid (json answering) laws "doctor" (object end) ahead (114 ∷ []) [] answering pipe
      asked_pipe refl (ground arith) refl asks_again refl answering-IsSendable
