-- ===== src/Nbd/Transmission/Examples.antt =====
-- The theorems of the request loop at a concrete client.
use wii_bridge.Common.{ℕ, ◌-◌, ◌≤◌, ◌≡◌, refl, false, some, List, [], ◌∷◌, arith, Bytes, length}
use wii_bridge.Nbd.{failed, eof, Wire, End, read_full, write_frame}
use wii_bridge.Nbd.Transmission.{
  transmission, serve_request, serve_header, dispatch, handle_read, handle_write, store,
  out_of_range, finish_round, parse_header, reply_frame,
}
use wii_bridge.Nbd.Transmission.Progress.{transmission_total}
use wii_bridge.Nbd.Transmission.Access.{transmission_keeps}
use wii_bridge.Nbd.Transmission.Framing.{
  Request, encode_all, WellFormed, replies, state_after, transmission_in_step,
}
use wii_bridge.Nbd.Fixtures.{server, logging}

-- The logged ends are inside the backend.
abbrev Inside : List ℕ → Type 0
Inside [] = Unit
Inside (x ∷ xs) = (x ≤ 4096) × Inside xs

abbrev read_two : Request
read_two = record { flags = 0; kind = 0; handle = 9; offset = 4094; len = 2; payload = [] }

abbrev write_three : Request
write_three = record {
  flags = 1;
  kind = 1;
  handle = 10;
  offset = 512;
  len = 3;
  payload = 1 ∷ 2 ∷ 3 ∷ [];
}

abbrev sent : Bytes
sent = encode_all (write_three ∷ read_two ∷ []) []

abbrev client : Wire
client = record { input = sent; output = []; room = 100 }

transmission_total_example :
    (r : End × Wire × List ℕ) × (transmission server (logging false) 60 client [] ≡ some r)
transmission_total_example = transmission_total server (logging false) 60 client [] (omega arith)

session :
    transmission server (logging false) 60 client []
    ≡ some (
      failed eof,
      record {
        input = [];
        output = replies server (logging false) (write_three ∷ read_two ∷ []) [];
        room = 66;
      },
      4096 ∷ 515 ∷ [],
    )
unfolding transmission serve_request serve_header dispatch handle_read handle_write store
    out_of_range finish_round parse_header reply_frame read_full write_frame
session = refl

transmission_keeps_example : Inside (4096 ∷ 515 ∷ [])
transmission_keeps_example =
    transmission_keeps server (logging false) Inside
      (λ n off s some_bytes limit inside p. (inside, p))
      (λ payload off s writable some_bytes limit inside p. (inside, p)) (λ s writable p. p) 60
      client [] (failed eof)
      (record {
        input = [];
        output = replies server (logging false) (write_three ∷ read_two ∷ []) [];
        room = 66;
      })
      (4096 ∷ 515 ∷ []) tt session

write_three-WellFormed : WellFormed server write_three
write_three-WellFormed = ground arith

read_two-WellFormed : WellFormed server read_two
read_two-WellFormed = ground arith

replies_fit : length (replies server (logging false) (write_three ∷ read_two ∷ []) []) ≤ 100
unfolding dispatch handle_read handle_write store out_of_range reply_frame read_full
replies_fit = omega arith

transmission_in_step_example :
    transmission server (logging false) 62 client []
    ≡ transmission server
        (logging false)
        60
        (record {
          input = [];
          output = replies server (logging false) (write_three ∷ read_two ∷ []) [];
          room = 100 - length (replies server (logging false) (write_three ∷ read_two ∷ []) []);
        })
        (state_after server (logging false) (write_three ∷ read_two ∷ []) [])
transmission_in_step_example =
    transmission_in_step server (logging false) (write_three ∷ read_two ∷ []) [] [] 100 60 []
      (write_three-WellFormed, (read_two-WellFormed, tt)) replies_fit
