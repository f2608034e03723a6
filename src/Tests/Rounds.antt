-- ===== src/Tests/Rounds.antt =====
-- Runs of the inner loop and of the handshake, and of what goes wrong.
use aaruremote.Common.{ℕ, ◌≡◌, refl, true, false, none, some, List, [], ◌∷◌, ◌++◌, arith, All}
use aaruremote.Protocol.Header.{load_header, has_magic}
use aaruremote.Protocol.Structs.{load_cmd_scsi}
use aaruremote.Worker.Platform.{Platform}
use aaruremote.Worker.Session.{Session, initial_nop}
use aaruremote.Worker.Control.{c_string}
use aaruremote.Worker.Transfers.{on_scsi}
use aaruremote.Worker.Transfers.Answers.{on_scsi_untouched}
use aaruremote.Worker.Served.{Ensures, Quiet, Request, NopReady}
use aaruremote.Worker.Loop.{Run, run, dispatch, step, serve_client}
use aaruremote.Worker.Loop.Dispatch.{Servable, am_i_root, close_device, Handled, dispatch-Handled}
use aaruremote.Worker.Loop.Rounds.{
  IsFramed, Ready, step-Handled, step_of_other_version, step_at_end, step_without_magic,
}
use aaruremote.Worker.Loop.Conversation.{IsRequest, current, foreign, wire, Concluded}
use aaruremote.Worker.Loop.Greeting.{IsHello, Accepted, serve_client-Concluded}
use aaruremote.Worker.Loop.Faults.{Command, packet_type_of, run_without_memory}
use aaruremote.Tests.Setup.{
  Wire, test_platform, test_net, test_alloc, test_laws, waiting, am_i_root_packet, close_packet,
  old_version_packet, foreign_packet, hello_packet, scsi_packet,
}

am_i_root-IsFramed : IsFramed am_i_root_packet
unfolding load_header has_magic
am_i_root-IsFramed = record {
  long = omega arith;
  announced = refl;
  small = omega arith;
  magic = refl;
}

close-IsFramed : IsFramed close_packet
unfolding load_header has_magic
close-IsFramed = record { long = omega arith; announced = refl; small = omega arith; magic = refl }

old_version-IsFramed : IsFramed old_version_packet
unfolding load_header has_magic
old_version-IsFramed = record {
  long = omega arith;
  announced = refl;
  small = omega arith;
  magic = refl;
}

am_i_root_served : Servable am_i_root_packet 26
am_i_root_served = am_i_root refl

am_i_root-IsRequest : IsRequest am_i_root_packet
unfolding load_header
am_i_root-IsRequest = current am_i_root-IsFramed refl (am_i_root refl)

close-IsRequest : IsRequest close_packet
unfolding load_header
close-IsRequest = current close-IsFramed refl (close_device refl)

old_version-IsRequest : IsRequest old_version_packet
unfolding load_header
old_version-IsRequest = foreign old_version-IsFramed refl

abbrev pub script : List (List ℕ)
script = am_i_root_packet ∷ close_packet ∷ old_version_packet ∷ []

pub script_requests : All IsRequest script
script_requests = (am_i_root-IsRequest, (close-IsRequest, (old_version-IsRequest, tt)))

script-Ready : Ready test_net [] (wire script) (waiting (wire script))
unfolding load_header initial_nop wire
script-Ready = record {
  live = refl;
  to_serve = refl;
  written = refl;
  nop_ready = refl;
  bounded = omega arith;
}

am_i_root-Ready :
    Ready test_net []
      (am_i_root_packet ++ close_packet)
      (waiting (am_i_root_packet ++ close_packet))
unfolding load_header initial_nop wire
am_i_root-Ready = record {
  live = refl;
  to_serve = refl;
  written = refl;
  nop_ready = refl;
  bounded = omega arith;
}

old_version-Ready :
    Ready test_net []
      (old_version_packet ++ close_packet)
      (waiting (old_version_packet ++ close_packet))
unfolding load_header initial_nop wire
old_version-Ready = record {
  live = refl;
  to_serve = refl;
  written = refl;
  nop_ready = refl;
  bounded = omega arith;
}

foreign-Ready :
    Ready test_net [] (foreign_packet ++ close_packet) (waiting (foreign_packet ++ close_packet))
unfolding load_header initial_nop wire
foreign-Ready = record {
  live = refl;
  to_serve = refl;
  written = refl;
  nop_ready = refl;
  bounded = omega arith;
}

end-Ready : Ready test_net [] ([]) (waiting ([]))
unfolding load_header initial_nop wire
end-Ready = record {
  live = refl;
  to_serve = refl;
  written = refl;
  nop_ready = refl;
  bounded = omega arith;
}

pub hello : IsHello hello_packet
unfolding load_header has_magic c_string
hello = record {
  framed = record { long = omega arith; announced = refl; small = omega arith; magic = refl };
  version = refl;
  type_hello = refl;
  application = ([], refl);
  app_version = ([], refl);
  sysname = ([], refl);
  release = ([], refl);
  machine = ([], refl);
  whole = omega arith;
}

accepted :
    (rest : List ℕ)
    → Accepted test_net test_alloc (hello_packet ++ rest) (waiting (hello_packet ++ rest))
unfolding initial_nop
accepted rest = record { to_come = refl; nothing_sent = refl; nop_ready = refl }

serve_client-Concluded_example :
    Ensures
      (λ o s'.
        (r : Run) × (o ≡ some r) × Concluded test_net test_alloc (hello_packet ∷ []) script r s')
      (serve_client test_platform hello_packet 4 (waiting (hello_packet ++ wire script)))
serve_client-Concluded_example =
    serve_client-Concluded test_net test_alloc hello_packet hello_packet script 4 test_laws
      (accepted (wire script)) refl hello script_requests (omega arith)

dispatch-Handled_example :
    Ensures
      (λ _. Handled test_net test_alloc 26 [] [])
      (dispatch test_platform 26 (waiting am_i_root_packet))
unfolding load_header initial_nop
dispatch-Handled_example =
    dispatch-Handled test_net test_alloc test_laws 26 am_i_root_served
      (record {
        announced = refl;
        there = refl;
        size = refl;
        small = omega arith;
        is_live = refl;
        not_skipping = refl;
        nop_ready = refl;
      })
      (omega arith)

step-Handled_example :
    Ensures
      (λ more s'. (more ≡ true) × Handled test_net test_alloc 26 [] close_packet s')
      (step test_platform (waiting (am_i_root_packet ++ close_packet)))
unfolding load_header
step-Handled_example =
    step-Handled test_net test_alloc am_i_root_packet close_packet test_laws am_i_root-Ready
      am_i_root-IsFramed refl (am_i_root refl)

step_of_other_version_example :
    Ensures
      (λ more s'. (more ≡ true) × Quiet test_net [] close_packet s')
      (step test_platform (waiting (old_version_packet ++ close_packet)))
unfolding load_header
step_of_other_version_example =
    step_of_other_version test_net test_alloc old_version_packet close_packet old_version-Ready
      old_version-IsFramed refl

step_without_magic_example :
    Ensures
      (λ more s'. (more ≡ false) × (s'.client_live ≡ false) × (s'.conn.written ≡ []))
      (step test_platform (waiting (foreign_packet ++ close_packet)))
unfolding load_header has_magic
step_without_magic_example =
    step_without_magic test_net test_alloc foreign_packet close_packet foreign-Ready (omega arith)
      refl

step_at_end_example :
    Ensures
      (λ more s'.
        (more ≡ false) × (s'.client_live ≡ false) × (s'.conn.written ≡ []) × NopReady test_net s')
      (step test_platform (waiting []))
step_at_end_example = step_at_end test_net test_alloc end-Ready

-- The same device with an allocator that has no memory.
abbrev full_platform : Platform Wire (Unit {0}) (Unit {0})
full_platform = record test_platform { malloc = λ h n. (none, h) }

run_without_memory_example : run full_platform 2 (waiting am_i_root_packet) ≡ none
unfolding load_header has_magic packet_type_of
run_without_memory_example =
    run_without_memory full_platform Command.am_i_root (waiting am_i_root_packet) am_i_root_packet
      refl refl refl refl (refl, refl, refl, refl) 0

-- No device is open.
abbrev closed_device : Session Wire (Unit {0}) (Unit {0})
closed_device = record (waiting scsi_packet) { device_ctx = 0 }

scsi_request : Request test_net closed_device 42 scsi_packet []
unfolding load_header initial_nop
scsi_request = record {
  announced = refl;
  there = refl;
  size = refl;
  small = omega arith;
  is_live = refl;
  not_skipping = refl;
  nop_ready = refl;
}

on_scsi_untouched_example : on_scsi test_platform closed_device ≡ none
unfolding load_cmd_scsi
on_scsi_untouched_example =
    on_scsi_untouched test_net test_alloc scsi_request (omega arith) refl (λ call. refl)
