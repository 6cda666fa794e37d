-- ===== src/Nbd/Transmission/Framing.antt =====
-- Requests one behind another on a connection (nbd.go): the request loop stays in step with them.
use wii_bridge.Common.{
  ℕ, suc, ◌+◌, ◌-◌, ◌*◌, ◌≤◌, ◌<◌, ◌≡◌, ◌≢◌, refl, ◌∙◌, ap₂, append_assoc, subst, Bool, true, false,
  some, arith, Bytes, List, [], ◌∷◌, ◌++◌, length, Bool-cases, le→ltb, ◌==◌, inl, inr, be_bytes,
  if◌then◌else◌, be_value-be_bytes_four, be_value-be_bytes_eight, append-nil, zero-add, sub-zero,
  length-append, take-append_length, drop-append_length,
}
use wii_bridge.Nbd.{
  cmd_write, cmd_disconnect, request_magic, Wire, read_full, write_frame, Backend, Server,
}
use wii_bridge.Nbd.Transmission.{
  Header, command, parse_header, Answer, answer, broken, out_of_range, handle_read, handle_flush,
  store, skip_payload, handle_write, dispatch, go_on, reply_frame, finish_round, serve_header,
  serve_request, transmission,
}
use wii_bridge.Nbd.Transmission.Progress.{transmission-go_on}

-- A request as a client builds it. The command flags are the high half of the type word.
pub record Request : Type 0 where
  pub flags : ℕ
  pub kind : ℕ
  pub handle : ℕ
  pub offset : ℕ
  pub len : ℕ
  pub payload : Bytes

abbrev pub header_of : Request → Header
header_of r = record {
  magic = request_magic;
  flags_type = r.flags * 65536 + r.kind;
  handle = r.handle;
  offset = r.offset;
  len = r.len;
}

abbrev pub header_bytes : Request → Bytes
header_bytes r =
    be_bytes 4 request_magic
    ++ (be_bytes 4 (r.flags * 65536 + r.kind)
        ++ (be_bytes 8 r.handle ++ (be_bytes 8 r.offset ++ be_bytes 4 r.len)))

abbrev pub encode_all : List Request → Bytes → Bytes
encode_all [] rest = rest
encode_all (r ∷ rs) rest = header_bytes r ++ (r.payload ++ encode_all rs rest)

-- Fields within their widths, a payload exactly on a write, and a write that is not oversized.
pub record WellFormed (server : Server) (r : Request) : Type 0 where
  pub flags_width : r.flags < 65536
  pub kind_width : r.kind < 65536
  pub handle_width : r.handle < 18446744073709551616
  pub offset_width : r.offset < 18446744073709551616
  pub len_width : r.len < 4294967296
  pub goes_on : r.kind ≢ cmd_disconnect
  pub payload_size : length r.payload ≡ (if r.kind == cmd_write then r.len else 0)
  pub not_oversized : r.kind ≡ cmd_write → r.len ≤ server.max_request

parse_header-header_bytes :
    (server : Server) (r : Request)
    → WellFormed server r
    → parse_header (header_bytes r) ≡ header_of r
unfolding parse_header
parse_header-header_bytes server r v = ground (
  arith,
  be_value-be_bytes_four (r.flags * 65536 + r.kind),
  be_value-be_bytes_eight r.handle,
  be_value-be_bytes_eight r.offset,
  be_value-be_bytes_four r.len,
)

abbrev wire : Bytes → Bytes → ℕ → Wire
wire input output room = record { input = input; output = output; room = room }

read_full-append :
    (n : ℕ) (b rest o : Bytes) (room : ℕ)
    → length b ≡ n
    → read_full n (wire (b ++ rest) o room) ≡ some (b, wire rest o room)
unfolding read_full
read_full-append n b rest o room e =
    ground (arith, length-append b rest, take-append_length b rest n, drop-append_length b rest n)

read_full_exact :
    (n : ℕ) (b o : Bytes) (room : ℕ)
    → length b ≡ n
    → read_full n (wire b o room) ≡ some (b, wire [] o room)
read_full_exact n b o room e =
    subst (λ t. read_full n (wire t o room) ≡ some (b, wire [] o room)) (append-nil b)
      (read_full-append n b [] o room e)

abbrev pub reply_to : ℕ → Answer → Bytes
reply_to handle (answer status payload) = reply_frame status handle payload
reply_to handle (broken f) = []

abbrev is_answer : Answer → Bool
is_answer (answer status payload) = true
is_answer (broken f) = false

nil_of_length : (p : Bytes) → length p ≡ 0 → [] ≡ p
nil_of_length [] e = refl
nil_of_length (b ∷ p) e = absurd (omega arith)

finish_round_lem :
    {S : Type 0} (handle : ℕ) (a : Answer) (input o : Bytes) (room : ℕ) (s : S)
    → is_answer a ≡ true
    → length (reply_to handle a) ≤ room
    → finish_round handle a (wire input o room) s
      ≡ go_on (wire input (o ++ reply_to handle a) (room - length (reply_to handle a))) s
unfolding finish_round write_frame
finish_round_lem handle (answer status payload) input o room s e fits = ground arith
finish_round_lem handle (broken f) input o room s e fits = cc

module _ {S : Type 0} (server : Server) (backend : Backend S) where
  -- The request by itself on a connection.
  abbrev pub alone : Request → S → Answer × Wire × S
  alone r s = dispatch server backend (header_of r) (wire r.payload [] 0) s

  abbrev pub reply : Request → S → Bytes
  reply r s = reply_to r.handle (alone r s).0

  abbrev pub replies : List Request → S → Bytes
  replies [] s = []
  replies (r ∷ rs) s = reply r s ++ replies rs (alone r s).2

  abbrev pub state_after : List Request → S → S
  state_after [] s = s
  state_after (r ∷ rs) s = state_after rs (alone r s).2

  -- Every command but a write leaves the connection alone.
  dispatch_other :
      (h : Header) (input o : Bytes) (room : ℕ) (s : S)
      → (command h == cmd_write) ≡ false
      → let (a, w, s') = dispatch server backend h (wire [] [] 0) s in
        dispatch server backend h (wire input o room) s ≡ (a, wire input o room, s')
  unfolding dispatch
  dispatch_other h input o room s e = ground arith

  handle_write-append :
      (h : Header) (p rest o : Bytes) (room : ℕ) (s : S)
      → length p ≡ h.len
      → h.len ≤ server.max_request
      → let (a, w, s') = handle_write server backend h (wire p [] 0) s in
        handle_write server backend h (wire (p ++ rest) o room) s ≡ (a, wire rest o room, s')
  handle_write-append h p rest o room s e fits = elim (Bool-cases (out_of_range server backend h)) [
    | inl out ↦
        unfold handle_write skip_payload in
        rw (
          out,
          le→ltb server.max_request h.len fits,
          read_full-append h.len p rest o room e,
          read_full_exact h.len p [] 0 e,
          skip_payload,
        )
    | inr inside ↦
        unfold handle_write in
        rw (inside, read_full-append h.len p rest o room e, read_full_exact h.len p [] 0 e)
  ]

  dispatch_write :
      (h : Header) (p rest o : Bytes) (room : ℕ) (s : S)
      → command h ≡ cmd_write
      → length p ≡ h.len
      → h.len ≤ server.max_request
      → let (a, w, s') = dispatch server backend h (wire p [] 0) s in
        dispatch server backend h (wire (p ++ rest) o room) s ≡ (a, wire rest o room, s')
  dispatch_write h p rest o room s c e fits =
      unfold dispatch in rw c (handle_write-append h p rest o room s e fits)

  store_answers : (h : Header) (p : Bytes) (s : S) → is_answer (store server backend h p s).0 ≡ true
  unfolding store
  store_answers h p s = ground arith

  handle_write_answers :
      (h : Header) (p : Bytes) (s : S)
      → length p ≡ h.len
      → h.len ≤ server.max_request
      → is_answer (handle_write server backend h (wire p [] 0) s).0 ≡ true
  handle_write_answers h p s e fits = elim (Bool-cases (out_of_range server backend h)) [
    | inl out ↦
        unfold handle_write skip_payload in
        rw (out, le→ltb server.max_request h.len fits, read_full_exact h.len p [] 0 e, skip_payload)
    | inr inside ↦
        unfold handle_write in rw (inside, read_full_exact h.len p [] 0 e) (store_answers h p s)
  ]

  dispatch_answers :
      (h : Header) (p : Bytes) (s : S)
      → (command h ≡ cmd_write → length p ≡ h.len)
      → (command h ≡ cmd_write → h.len ≤ server.max_request)
      → is_answer (dispatch server backend h (wire p [] 0) s).0 ≡ true
  unfolding dispatch handle_read handle_flush
  dispatch_answers h p s e fits = ground (arith, handle_write_answers h p s)

  dispatch-append :
      (r : Request) (rest o : Bytes) (room : ℕ) (s : S)
      → WellFormed server r
      → let (a, w, s') = alone r s in
        dispatch server backend (header_of r) (wire (r.payload ++ rest) o room) s
        ≡ (a, wire rest o room, s')
  dispatch-append r rest o room s v = elim (Bool-cases (r.kind == cmd_write)) [
    | inl write ↦
        dispatch_write (header_of r) r.payload rest o room s (ground (arith, v)) (ground (arith, v))
          (ground (arith, v))
    | inr other ↦
        subst
          (λ p. dispatch server backend (header_of r) (wire (p ++ rest) o room) s ≡ (
            (dispatch server backend (header_of r) (wire p [] 0) s).0,
            wire rest o room,
            (dispatch server backend (header_of r) (wire p [] 0) s).2,
          ))
          (nil_of_length r.payload (ground (arith, v)))
          (dispatch_other (header_of r) rest o room s (ground (arith, v)))
  ]

  serve_header_lem :
      (r : Request) (rest o : Bytes) (room : ℕ) (s : S)
      → WellFormed server r
      → length (reply r s) ≤ room
      → serve_header server backend (header_of r) (wire (r.payload ++ rest) o room) s
        ≡ go_on (wire rest (o ++ reply r s) (room - length (reply r s))) (alone r s).2
  serve_header_lem r rest o room s v fits =
      let goes_on : (command (header_of r) == cmd_disconnect) ≡ false = ground (arith, v) in
      unfold serve_header in
      rw (goes_on, dispatch-append r rest o room s v)
        (finish_round_lem r.handle (alone r s).0 rest o room (alone r s).2
          (dispatch_answers (header_of r) r.payload s (λ c. ground (arith, v))
            (λ c. ground (arith, v)))
          fits)

  serve_request_lem :
      (r : Request) (rest o : Bytes) (room : ℕ) (s : S)
      → WellFormed server r
      → length (reply r s) ≤ room
      → serve_request server backend (wire (header_bytes r ++ (r.payload ++ rest)) o room) s
        ≡ go_on (wire rest (o ++ reply r s) (room - length (reply r s))) (alone r s).2
  serve_request_lem r rest o room s v fits =
      unfold serve_request in
      rw (read_full-append 28 (header_bytes r) (r.payload ++ rest) o room refl, serve_request)
        (rw (parse_header-header_bytes server r v) (serve_header_lem r rest o room s v fits))

  abbrev pub AllWellFormed : List Request → Type 0
  AllWellFormed [] = Unit
  AllWellFormed (r ∷ rs) = WellFormed server r × AllWellFormed rs

  -- Any sequence of well-formed requests, one behind another, whatever follows them: with room for
  -- the replies, the loop answers them in order, each with its own handle and exactly as it would
  -- answer it alone on the connection, and then goes on with what follows from its first byte.
  pub transmission_in_step :
      (rs : List Request) (rest o : Bytes) (room fuel : ℕ) (s : S)
      → AllWellFormed rs
      → length (replies rs s) ≤ room
      → transmission server backend (length rs + fuel) (wire (encode_all rs rest) o room) s
        ≡ transmission server backend fuel
            (wire rest (o ++ replies rs s) (room - length (replies rs s)))
            (state_after rs s)
  transmission_in_step [] rest o room fuel s v fits = simp (append-nil, zero-add, sub-zero)
  transmission_in_step (r ∷ rs) rest o room fuel s (v, vs) fits =
      let split = length-append (reply r s) (replies rs (alone r s).2) in
      let room' = room - length (reply r s) in
      let unrolled : length (r ∷ rs) + fuel ≡ suc (length rs + fuel) = omega arith in
      rw unrolled (
        transmission-go_on server backend (length rs + fuel) _ s _ _
          (serve_request_lem r (encode_all rs rest) o room s v (omega (arith, split)))
        ∙ (transmission_in_step rs rest (o ++ reply r s) room' fuel (alone r s).2 vs
              (omega (arith, split))
            ∙ ap₂
                (λ out left.
                  transmission server backend fuel (wire rest out left)
                    (state_after rs (alone r s).2))
                (append_assoc o (reply r s) (replies rs (alone r s).2)) (omega (arith, split))))
