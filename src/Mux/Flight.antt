-- ===== src/Mux/Flight.antt =====
-- What `_handle_read` in dlstorage/connection_pool/mux.py makes of a response whose bytes are all
-- known: the rest of the header and then the body, as `readexactly` would get them.
use dlstorage.Base.{
  Text, ℕ, zero, suc, ◌-◌, ◌≤◌, ◌<◌, Bytes, from_bytes, true, false, [], zero, suc, ◌++◌, length,
  take, if◌then◌else◌, ◌≡◌, refl, sym, ap, ◌∙◌, arith, Bool-cases, inl, inr, length-append,
}
use mathlib.Core.List.{append_assoc, append-nil}
use dlstorage.Result.{Result, ok, raise, Error}
use dlstorage.Action.{continue, lift}
use dlstorage.Types.{Message}
use dlstorage.Wire.{header_size, read_exactly, recv_message_async}
use dlstorage.Wire.Pieces.{
  read_exactly-short, read_exactly-nothing, read_exactly-take, prepend, read_exactly-append,
}
use dlstorage.Mux.{InFlight, new_flight, Outcome, failed, need, deserialise}

abbrev pub in_body : InFlight → ℕ → InFlight
in_body f n = record f { expected = n; buf = []; hdr_done = true }

-- A body may have no byte to wait for.
pub data IsGoing (f : InFlight) : Type 0 where
  wants : 0 < need f → IsGoing f
  in_new_body : f.hdr_done ≡ true → f.buf ≡ [] → IsGoing f

module _ (loads : Bytes → Result Message) where
  -- What is still to come makes the body, after the part `buf` that is there.
  unfoldable finish : Bytes → Result Bytes → Outcome
  finish buf (ok got) = deserialise loads (loads (buf ++ got))
  finish buf (raise e) = failed

  abbrev read_body : InFlight → Bytes → Outcome
  read_body f rest = finish f.buf (read_exactly (need f) rest).0

  unfoldable start : InFlight → Result Bytes → Bytes → Outcome
  start f (ok got) rest = read_body (in_body f (from_bytes (take header_size (f.buf ++ got)))) rest
  start f (raise e) rest = failed

  abbrev read_header : InFlight → Bytes → Outcome
  read_header f rest = start f (read_exactly (need f) rest).0 (read_exactly (need f) rest).1

  pub read_flight : InFlight → Bytes → Outcome
  read_flight f rest = if f.hdr_done then read_body f rest else read_header f rest

  finish-prepend :
      (buf c : Bytes) (r : Result Bytes) → finish buf (prepend c r) ≡ finish (buf ++ c) r
  unfolding finish prepend
  finish-prepend buf c (ok got) =
      ap (λ x. deserialise loads (loads x)) (sym (append_assoc buf c got))
  finish-prepend buf c (raise e) = refl

  start-prepend :
      (f : InFlight) (c : Bytes) (r : Result Bytes) (rest : Bytes)
      → start f (prepend c r) rest ≡ start (record f { buf = f.buf ++ c }) r rest
  unfolding start prepend
  start-prepend f c (ok got) rest =
      ap (λ x. read_body (in_body f (from_bytes (take header_size x))) rest)
        (sym (append_assoc f.buf c got))
  start-prepend f c (raise e) rest = refl

  -- Bytes that have come may be moved from the stream to the buffer.
  pub read_flight-append :
      (f : InFlight) (c rest : Bytes)
      → length c ≤ need f
      → read_flight f (c ++ rest) ≡ read_flight (record f { buf = f.buf ++ c }) rest
  unfolding read_flight
  read_flight-append f c rest h =
      let (got, left) = read_exactly-append (need f) c rest h in
      let total = length-append f.buf c in
      let less : f.expected - length (f.buf ++ c) ≡ need f - length c = omega (arith, total) in
      elim (Bool-cases f.hdr_done) [
        | inl body ↦ rw (body, got, less) (finish-prepend f.buf c _)
        | inr head ↦
            rw (head, got, left, less) (start-prepend (record f { hdr_done = false }) c _ _)
      ]

  read_flight-short :
      (f : InFlight) (rest : Bytes) → length rest < need f → read_flight f rest ≡ failed
  unfolding read_flight finish start
  read_flight-short f rest h =
      rw (read_exactly-short (need f) rest h)
        (elim (Bool-cases f.hdr_done) [ inl body ↦ rw body refl | inr head ↦ rw head refl ])

  -- The bytes that were waited for are there.
  pub read_flight_complete :
      (f : InFlight) (rest : Bytes)
      → need f ≡ 0
      → (f.hdr_done ≡ true → read_flight f rest ≡ deserialise loads (loads f.buf))
        × (f.hdr_done ≡ false
            → read_flight f rest
              ≡ read_flight (in_body f (from_bytes (take header_size f.buf))) rest)
  unfolding read_flight finish start
  read_flight_complete f rest h =
      rw (h, read_exactly-nothing rest, append-nil f.buf)
        ((λ body. rw body refl), (λ head. rw head refl))

  module _ (e : Error) (empty : loads [] ≡ raise e) where
    pub read_flight-none :
        (f : InFlight) (rest : Bytes)
        → IsGoing f
        → (0 < need f → length rest ≡ 0)
        → read_flight f rest ≡ failed
    read_flight-none f rest (wants h) none_left =
        read_flight-short f rest (omega (arith, h, none_left h))
    read_flight-none f rest (in_new_body body fresh) none_left = go (need f) refl
      where
        go : (n : ℕ) → need f ≡ n → read_flight f rest ≡ failed
        go zero k = (read_flight_complete f rest k).0 body ∙ rw (fresh, empty) refl
        go (suc n) k =
            let wanted : 0 < need f = omega (arith, k) in
            read_flight-short f rest (omega (arith, wanted, none_left wanted))

    finish_body :
        (x : Result Bytes × Bytes)
        → finish [] x.0 ≡ deserialise loads (continue x.0 (λ body. lift (loads body)) x.1).0
    unfolding finish
    finish_body (ok got, rest) = refl
    finish_body (raise e, rest) = refl

    pub read_flight-new :
        (a : Text) (call : ℕ) (b : Bytes)
        → read_flight (new_flight a call) b ≡ deserialise loads (recv_message_async loads b).0
    unfolding read_flight start recv_message_async
    read_flight-new a call b = go (read_exactly header_size b) refl
      where
        go :
            (x : Result Bytes × Bytes)
            → read_exactly header_size b ≡ x
            → read_flight (new_flight a call) b ≡ deserialise loads (recv_message_async loads b).0
        go (ok head, rest) h =
            let same : from_bytes head - 0 ≡ from_bytes head = omega arith in
            rw (h, read_exactly-take header_size b head rest h, same)
              (finish_body (read_exactly (from_bytes head) rest))
        go (raise e, rest) h = rw h refl
