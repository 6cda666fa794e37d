-- ===== src/Nbd/Transmission/Access.antt =====
-- What a session of nbd.go asks of its backend.
use wii_bridge.Common.{
  ℕ, zero, suc, ◌+◌, ◌≤◌, ◌<◌, ◌≡◌, refl, sym, ◌∙◌, subst, false, Option, some, arith, Bytes,
  length, Bool-cases, if_both, ltb, ◌==◌, not, Option-cases, inl, inr,
}
use wii_bridge.Nbd.{
  cmd_read, cmd_write, cmd_disconnect, cmd_flush, cmd_trim, cmd_write_zeroes, request_magic,
  invalid_request_magic, End, finished, failed, Wire, read_full, write_frame, Backend, Server,
}
use wii_bridge.Nbd.Transmission.{
  Header, command, parse_header, Answer, out_of_range, handle_read, handle_flush, store,
  handle_write, dispatch, Round, go_on, ended, finish_round, serve_header, serve_request,
  transmission,
}
use wii_bridge.Nbd.Transmission.Progress.{read_full-Took, transmission-ended, transmission-go_on}

pub record InRange {S : Type 0} (server : Server) (backend : Backend S) (h : Header) : Type 0 where
  pub some_bytes : 0 < h.len
  pub request_limit : h.len ≤ server.max_request
  pub inside : h.offset + h.len ≤ backend.size

pub out_of_range-InRange :
    {S : Type 0} (server : Server) (backend : Backend S) (h : Header)
    → out_of_range server backend h ≡ false
    → InRange server backend h
unfolding out_of_range
out_of_range-InRange server backend h e = ground arith

pub round_state : {S : Type 0} → Round S → S
round_state (go_on w s) = s
round_state (ended e w s) = s

pub round_state-finish_round :
    {S : Type 0} (handle : ℕ) (a : Answer) (w : Wire) (s : S)
    → round_state (finish_round handle a w s) ≡ s
unfolding round_state finish_round write_frame
round_state-finish_round handle (Answer.answer status payload) w s = ground arith
round_state-finish_round handle (Answer.broken f) w s = refl

module _ {S : Type 0} (server : Server) (backend : Backend S) (P : S → Type 0)
    (reads : (n off : ℕ) (s : S)
      → 0 < n
      → n ≤ server.max_request
      → off + n ≤ backend.size
      → P s
      → P (backend.read_at n off s).1)
    (writes : (payload : Bytes) (off : ℕ) (s : S)
      → backend.read_only ≡ false
      → 0 < length payload
      → length payload ≤ server.max_request
      → off + length payload ≤ backend.size
      → P s
      → P (backend.write_at payload off s).1)
    (syncs : (s : S) → backend.read_only ≡ false → P s → P (backend.sync s).1) where
  handle_read_keeps : (h : Header) (s : S) → P s → P (handle_read server backend h s).1
  handle_read_keeps h s p = elim (Bool-cases (out_of_range server backend h)) [
    | inl out ↦ unfold handle_read in rw out p
    | inr fits ↦
        let r = out_of_range-InRange server backend h fits in
        unfold handle_read in
        rw fits (reads h.len h.offset s r.some_bytes r.request_limit r.inside p)
  ]

  handle_flush_keeps : (s : S) → P s → P (handle_flush server backend s).1
  handle_flush_keeps s p = elim (Bool-cases backend.read_only) [
    | inl immutable ↦ unfold handle_flush in rw immutable p
    | inr writable ↦ unfold handle_flush in rw writable (syncs s writable p)
  ]

  store_keeps :
      (h : Header) (payload : Bytes) (s : S)
      → InRange server backend h
      → length payload ≡ h.len
      → P s
      → P (store server backend h payload s).1
  store_keeps h payload s r e p = elim (Bool-cases backend.read_only) [
    | inl immutable ↦ unfold store in rw immutable p
    | inr writable ↦
        unfold store in
        rw writable (
          writes payload h.offset s writable (omega (arith, r.some_bytes))
            (omega (arith, r.request_limit)) (omega (arith, r.inside)) p)
  ]

  handle_write_keeps :
      (h : Header) (w : Wire) (s : S) → P s → P (handle_write server backend h w s).2
  handle_write_keeps h w s p = elim (Bool-cases (out_of_range server backend h)) [
    | inl out ↦ elim (Bool-cases (ltb server.max_request h.len)) [
      | inl large ↦ unfold handle_write in rw (out, large) p
      | inr fits ↦ unfold handle_write in rw (out, fits) p
    ]
    | inr fits ↦ elim (Option-cases (read_full h.len w)) [
      | inl short ↦ unfold handle_write in rw (fits, short) p
      | inr (q, full) ↦
          unfold handle_write in
          rw (fits, full)
            (store_keeps h q.0 s (out_of_range-InRange server backend h fits)
              (read_full-Took h.len w q.0 q.1 full).taken p)
    ]
  ]

  dispatch_keeps : (h : Header) (w : Wire) (s : S) → P s → P (dispatch server backend h w s).2
  dispatch_keeps h w s p =
      unfold dispatch in
      let Q : Answer × Wire × S → Type 0 = λ r. P r.2 in
      if_both Q (command h == cmd_read) (handle_read_keeps h s p) (
        if_both Q (command h == cmd_flush) (handle_flush_keeps s p) (
          if_both Q (command h == cmd_write) (handle_write_keeps h w s p)
            (if_both Q (command h == cmd_trim) p (if_both Q (command h == cmd_write_zeroes) p p))))

  serve_header_keeps :
      (h : Header) (w : Wire) (s : S) → P s → P (round_state (serve_header server backend h w s))
  serve_header_keeps h w s p =
      let Q : Round S → Type 0 = λ r. P (round_state r) in
      let (a, w', s') = dispatch server backend h w s in
      let done : P (round_state (finish_round h.handle a w' s')) =
        rw round_state-finish_round (dispatch_keeps h w s p) in
      let stays : (e : End) → P (round_state (ended e w s)) = λ e. unfold round_state in p in
      unfold serve_header in
      if_both Q (not (h.magic == request_magic)) (stays (failed invalid_request_magic))
        (if_both Q (command h == cmd_disconnect) (stays finished) done)

  serve_request_keeps :
      (w : Wire) (s : S) → P s → P (round_state (serve_request server backend w s))
  serve_request_keeps w s p = elim (Option-cases (read_full 28 w)) [
    | inl short ↦ unfold serve_request round_state in rw (short, serve_request) p
    | inr (q, full) ↦
        unfold serve_request in
        rw (full, serve_request) (serve_header_keeps (parse_header q.0) q.1 s p)
  ]

  -- Whatever the client sends: what every in-range read keeps and, if the export is writable, every
  -- in-range write of a whole payload and every sync keep, the request loop keeps. In range means
  -- a length above 0, at most the request limit, that ends inside the backend; so an immutable
  -- backend is only read.
  pub transmission_keeps :
      (fuel : ℕ) (w : Wire) (s : S) (e : End) (w' : Wire) (s' : S)
      → P s
      → transmission server backend fuel w s ≡ some (e, w', s')
      → P s'
  transmission_keeps zero w s e w' s' p h = absurd (unfold transmission in cc)
  transmission_keeps (suc fuel) w s e w' s' p h =
      ongoing (λ w1 s1. transmission_keeps fuel w1 s1 e w' s') (serve_request server backend w s)
        refl (serve_request_keeps w s p)
    where
      ongoing :
          ((w1 : Wire) (s1 : S)
            → P s1
            → transmission server backend fuel w1 s1 ≡ some (e, w', s')
            → P s')
          → (r : Round S) → serve_request server backend w s ≡ r
          → P (round_state r)
          → P s'
      ongoing ih (ended e1 w1 s1) eq q =
          let same : ◌≡◌ {A = Option (End × Wire × S)} (some (e1, w1, s1)) (some (e, w', s')) =
            sym (transmission-ended server backend fuel w s e1 w1 s1 eq) ∙ h in
          let kept : P s1 = unfold round_state in q in
          let here : s1 ≡ s' = cc same in subst P here kept
      ongoing ih (go_on w1 s1) eq q =
          ih w1 s1 (unfold round_state in q)
            (sym (transmission-go_on server backend fuel w s w1 s1 eq) ∙ h)
