-- ===== src/Hello/Packet.antt =====
-- unix/hello.c: the hello packet is one that the server's peer, and the server itself, accepts.
use aaruremote.Common.{
  ℕ, zero, suc, ◌≤◌, ◌<◌, ◌≡◌, refl, sym, ap, ◌∙◌, true, List, [], ◌∷◌, ◌++◌, length, take, drop,
  replicate, arith, append_assoc, append-nil, drop-append_exact, drop-drop, ◌==◌, Bool-cases, inl,
  inr,
}
use aaruremote.Protocol.Types
use aaruremote.Protocol.Header.{
  own_header, IsHeader, load_header, encode_header, has_magic, load_header-encode_header,
  length-encode_header,
}
use aaruremote.Protocol.Structs.{AaruPacketHello, array, encode_hello, hello_size}
use aaruremote.Protocol.Layout.{length-array, length-encode_hello}
use aaruremote.Worker.Control.{c_string}
use aaruremote.Worker.Loop.Greeting.{IsHello, IsText}
use aaruremote.Hello.{server_hello}

IsText-zero : (text back : List ℕ) → IsText (text ++ 0 ∷ back)
unfolding c_string
IsText-zero [] back = ([], refl)
IsText-zero (c ∷ cs) back =
    let (t, e) = IsText-zero cs back in
    elim (Bool-cases (c == 0)) [
      | inl stop ↦ ([], rw (c_string, stop) refl)
      | inr more ↦ (c ∷ t, rw (c_string, more, e) refl)
    ]

-- What is shorter than the array is followed by a zero.
padded :
    (n m : ℕ) (text : List ℕ)
    → length text < n
    → n ≤ m
    → (back : List ℕ) × (take n (text ++ replicate m 0) ≡ text ++ 0 ∷ back)
padded zero m text short room = absurd (omega arith)
padded (suc n) zero text short room = absurd (omega arith)
padded (suc n) (suc m) [] short room = (take n (replicate m 0), refl)
padded (suc n) m (c ∷ cs) short room =
    let (back, e) = padded n m cs (omega arith) (omega arith) in (back, ap (λ q. c ∷ q) e)

array-IsText : (n : ℕ) (text rest : List ℕ) → length text < n → IsText (array n text ++ rest)
unfolding array
array-IsText n text rest short =
    let (back, e) = padded n n text short (omega arith) in
    let (t, reads) = IsText-zero text (back ++ rest) in
    (t, ap (λ q. c_string (q ++ rest)) e ∙ ap c_string (append_assoc text (0 ∷ back) rest) ∙ reads)

module _ (p : AaruPacketHello) (spare : length p.hdr.spare ≡ 2) where
  behind_machine : List ℕ
  behind_machine = array 256 p.machine

  behind_release : List ℕ
  behind_release = array 256 p.release ++ array 256 p.machine

  behind_version : List ℕ
  behind_version =
      p.max_protocol
      ∷ (array 3 p.spare ++ (array 256 p.sysname ++ (array 256 p.release ++ array 256 p.machine)))

  at_application :
      drop 16 (encode_hello p) ≡ array 128 p.application ++ (array 64 p.version ++ behind_version)
  unfolding encode_hello behind_version
  at_application = drop-append_exact 16 (encode_header p.hdr) _ (length-encode_header p.hdr spare)

  at_version : drop 144 (encode_hello p) ≡ array 64 p.version ++ behind_version
  unfolding behind_version
  at_version =
      sym (drop-drop 16 128 (encode_hello p))
      ∙ ap (drop 128) at_application
      ∙ drop-append_exact 128 (array 128 p.application) _ (length-array 128 p.application)

  at_sysname :
      drop 212 (encode_hello p)
      ≡ array 256 p.sysname ++ (array 256 p.release ++ array 256 p.machine)
  unfolding behind_version
  at_sysname =
      sym (drop-drop 144 68 (encode_hello p))
      ∙ ap (drop 68) at_version
      ∙ sym (drop-drop 64 4 (array 64 p.version ++ behind_version))
      ∙ ap (drop 4) (drop-append_exact 64 (array 64 p.version) _ (length-array 64 p.version))
      ∙ drop-append_exact 3 (array 3 p.spare) _ (length-array 3 p.spare)

  at_release : drop 468 (encode_hello p) ≡ array 256 p.release ++ array 256 p.machine
  at_release =
      sym (drop-drop 212 256 (encode_hello p))
      ∙ ap (drop 256) at_sysname
      ∙ drop-append_exact 256 (array 256 p.sysname) _ (length-array 256 p.sysname)

  at_machine : drop 724 (encode_hello p) ≡ array 256 p.machine ++ []
  at_machine =
      sym (drop-drop 468 256 (encode_hello p))
      ∙ ap (drop 256) at_release
      ∙ drop-append_exact 256 (array 256 p.release) _ (length-array 256 p.release)
      ∙ sym (append-nil (array 256 p.machine))

IsText-at : (b c : List ℕ) → b ≡ c → IsText c → IsText b
IsText-at b c e (t, reads) = (t, ap c_string e ∙ reads)

own_hello-IsHeader : IsHeader (own_header Types.type_hello hello_size (0 ∷ 0 ∷ []))
unfolding own_header
own_hello-IsHeader = record {
  remote_id_fits = omega arith;
  packet_id_fits = omega arith;
  len_fits = omega arith;
  version_fits = omega arith;
  packet_type_fits = omega arith;
  spare_size = refl;
}

hello_loaded : (p : AaruPacketHello) → IsHeader p.hdr → load_header (encode_hello p) ≡ p.hdr
unfolding encode_hello
hello_loaded p fits = load_header-encode_header p.hdr _ fits

own_hello_magic : has_magic (own_header Types.type_hello hello_size (0 ∷ 0 ∷ [])) ≡ true
unfolding has_magic own_header
own_hello_magic = refl

pub server_hello-IsHello :
    (sysname release machine : List ℕ)
    → length sysname < 256
    → length release < 256
    → length machine < 256
    → (length (encode_hello (server_hello sysname release machine)) ≡ hello_size)
      × IsHello (encode_hello (server_hello sysname release machine))
unfolding server_hello
server_hello-IsHello sysname release machine short_sysname short_release short_machine =
    let p = server_hello sysname release machine in
    let size = length-encode_hello p refl in
    let loaded : load_header (encode_hello p) ≡ p.hdr = hello_loaded p own_hello-IsHeader in
    (
      size,
      record {
        framed = record {
          long = omega (arith, size);
          announced = ap (λ h. h.len) loaded ∙ sym size;
          small = omega (arith, size);
          magic = ap has_magic loaded ∙ own_hello_magic;
        };
        version = ap (λ h. h.version) loaded;
        type_hello = ap (λ h. h.packet_type) loaded;
        application =
            IsText-at _ _ (at_application p refl) (array-IsText 128 p.application _ (omega arith));
        app_version = IsText-at _ _ (at_version p refl) (array-IsText 64 p.version _ (omega arith));
        sysname = IsText-at _ _ (at_sysname p refl) (array-IsText 256 p.sysname _ (omega arith));
        release = IsText-at _ _ (at_release p refl) (array-IsText 256 p.release _ (omega arith));
        machine = IsText-at _ _ (at_machine p refl) (array-IsText 256 p.machine [] (omega arith));
        whole = omega (arith, size);
      },
    )
