-- ===== src/Tests/Serving.antt =====
-- A run of the whole server with two clients.
use aaruremote.Common.{◌≡◌, refl, true, none, some, List, [], ◌∷◌, ◌++◌, arith}
use aaruremote.Worker.Served.{Ensures}
use aaruremote.Worker.Loop.Conversation.{wire}
use aaruremote.Worker.Serving.{Listener, no_client, working_loop}
use aaruremote.Worker.Serving.Clients.{
  Script, Arrivals, no_more, arrival, Answered, working_loop-Answered,
}
use aaruremote.Tests.Setup.{
  Wire, test_platform, test_net, test_alloc, test_laws, waiting, hello_packet,
}
use aaruremote.Tests.Rounds.{hello, script, script_requests}

-- A listening socket with the clients that are to arrive.
abbrev queue : Listener (List Wire) Wire
queue = record {
  net_socket = λ l. (true, l);
  net_bind = λ l. (true, l);
  net_listen = λ l. (true, l);
  net_accept = λ l. elim l [ [] ↦ (none, []) | c ∷ cs ↦ (some c, cs) ];
  net_close = λ l. l;
  nop_block = λ l. (true, l);
}

abbrev greeter : Script
greeter = record { hello = hello_packet; requests = [] }

abbrev asker : Script
asker = record { hello = hello_packet; requests = script }

abbrev dialled : Script → Wire
dialled q = record { to_receive = q.hello ++ wire q.requests; written = [] }

abbrev clients : List Wire
clients = dialled greeter ∷ dialled asker ∷ []

clients-Arrivals : Arrivals queue test_net clients (greeter ∷ asker ∷ [])
clients-Arrivals =
    arrival clients (dialled greeter) greeter (asker ∷ []) refl refl refl
      (arrival (dialled asker ∷ []) (dialled asker) asker [] refl refl refl (no_more [] refl))

working_loop-Answered_example :
    Ensures
      (λ r s'. (r.0 ≡ no_client) × Answered test_net.sent hello_packet r.1 (greeter ∷ asker ∷ []))
      (working_loop test_platform queue 3 hello_packet 4 clients (waiting []))
working_loop-Answered_example =
    working_loop-Answered queue test_net test_alloc (greeter ∷ asker ∷ []) hello_packet 3 4 clients
      (waiting []) test_laws refl
      (
        record { greets = hello; asks = tt; enough = omega arith },
        (record { greets = hello; asks = script_requests; enough = omega arith }, tt),
      )
      (omega arith) refl refl refl refl clients-Arrivals
