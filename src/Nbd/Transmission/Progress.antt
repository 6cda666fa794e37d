-- ===== src/Nbd/Transmission/Progress.antt =====
-- The request loop of nbd.go ends: each round takes a header off the connection.
use wii_bridge.Common.{
  ℕ, zero, suc, ◌+◌, ◌≤◌, ◌<◌, ◌≡◌, refl, some, arith, ◌∙◌, Bytes, length, take, drop, length-drop,
  length-take, Option-cases, inl, inr,
}
use wii_bridge.Nbd.{End, Wire, read_full, write_frame, Backend, Server}
use wii_bridge.Nbd.Transmission.{
  Header, parse_header, Answer, answer, broken, handle_read, handle_flush, skip_payload,
  handle_write, dispatch, Round, go_on, ended, finish_round, serve_header, serve_request,
  transmission,
}

-- What io.ReadFull leaves when it succeeds.
pub record Took (n : ℕ) (w : Wire) (b : Bytes) (w' : Wire) : Type 0 where
  pub taken : length b ≡ n
  pub bytes : b ≡ take n w.input
  pub left : w'.input ≡ drop n w.input
  pub shorter : length w'.input + n ≡ length w.input
  pub same_output : w'.output ≡ w.output
  pub same_room : w'.room ≡ w.room

pub read_full-Took :
    (n : ℕ) (w : Wire) (b : Bytes) (w' : Wire) → read_full n w ≡ some (b, w') → Took n w b w'
unfolding read_full
read_full-Took n w b w' e = ground (arith, length-drop n w.input, length-take n w.input)

module _ {S : Type 0} (server : Server) (backend : Backend S) where
  handle_write_input :
      (h : Header) (w : Wire) (s : S)
      → length (handle_write server backend h w s).1.input ≤ length w.input
  unfolding handle_write skip_payload read_full
  handle_write_input h w s = ground (arith, length-drop h.len w.input)

  dispatch_input :
      (h : Header) (w : Wire) (s : S)
      → length (dispatch server backend h w s).1.input ≤ length w.input
  unfolding dispatch handle_read handle_flush
  dispatch_input h w s = ground (arith, handle_write_input h w s)

  finish_round_input :
      (handle : ℕ) (a : Answer) (w : Wire) (s : S) (w' : Wire) (s' : S)
      → finish_round handle a w s ≡ go_on w' s'
      → length w'.input ≡ length w.input
  unfolding finish_round write_frame
  finish_round_input handle (broken f) w s w' s' e = cc
  finish_round_input handle (answer status payload) w s w' s' e = ground arith

  serve_header_input :
      (h : Header) (w : Wire) (s : S) (w' : Wire) (s' : S)
      → serve_header server backend h w s ≡ go_on w' s'
      → length w'.input ≤ length w.input
  unfolding serve_header
  serve_header_input h w s w' s' e =
      let (a, w2, s2) = dispatch server backend h w s in
      ground (arith, dispatch_input h w s, finish_round_input h.handle a w2 s2 w' s')

  pub serve_request_input :
      (w : Wire) (s : S) (w' : Wire) (s' : S)
      → serve_request server backend w s ≡ go_on w' s'
      → length w'.input < length w.input
  unfolding serve_request
  serve_request_input w s w' s' e = elim (Option-cases (read_full 28 w)) [
    | inl short ↦ ground arith
    | inr (p, full) ↦
        ground (
          arith,
          read_full-Took 28 w p.0 p.1 full,
          serve_header_input (parse_header p.0) p.1 s w' s',
        )
  ]

  pub transmission-ended :
      (fuel : ℕ) (w : Wire) (s : S) (e : End) (w' : Wire) (s' : S)
      → serve_request server backend w s ≡ ended e w' s'
      → transmission server backend (suc fuel) w s ≡ some (e, w', s')
  unfolding transmission
  transmission-ended fuel w s e w' s' eq = rw (eq, transmission)

  pub transmission-go_on :
      (fuel : ℕ) (w : Wire) (s : S) (w' : Wire) (s' : S)
      → serve_request server backend w s ≡ go_on w' s'
      → transmission server backend (suc fuel) w s ≡ transmission server backend fuel w' s'
  unfolding transmission
  transmission-go_on fuel w s w' s' eq = rw (eq, transmission)

  -- From every connection and backend state the request loop ends, with an outcome, within one
  -- round more than there are bytes to read.
  pub transmission_total :
      (fuel : ℕ) (w : Wire) (s : S)
      → length w.input < fuel
      → (r : End × Wire × S) × (transmission server backend fuel w s ≡ some r)
  transmission_total zero w s h = elim h [ ]
  transmission_total (suc fuel) w s h =
      ongoing (transmission_total fuel) (serve_request server backend w s) refl
    where
      ongoing :
          ((w' : Wire) (s' : S)
            → length w'.input < fuel
            → (x : End × Wire × S) × (transmission server backend fuel w' s' ≡ some x))
          → (r : Round S) → serve_request server backend w s ≡ r
          → (x : End × Wire × S) × (transmission server backend (suc fuel) w s ≡ some x)
      ongoing ih (ended end w' s') e = ((end, w', s'), transmission-ended fuel w s end w' s' e)
      ongoing ih (go_on w' s') e =
          let (x, found) = ih w' s' (omega (arith, serve_request_input w s w' s' e)) in
          (x, transmission-go_on fuel w s w' s' e ∙ found)
