-- ===== src/Mux/Reader.antt =====
-- dlstorage/connection_pool/mux.py, `_handle_read` again and again on one socket: how it reassembles
-- a response, against the framing of dlstorage/connection_pool/wire.py.
use dlstorage.Base.{
  Text, ℕ, zero, suc, ◌+◌, ◌<◌, ltb, Bytes, from_bytes, true, false, [], ◌∷◌, ◌++◌, length, take,
  All, ◌≡◌, refl, sym, ap, ◌∙◌, arith, Bool-cases, inl, inr, length-append,
}
use dlstorage.Result.{Result, ok, raise, Error}
use dlstorage.Types.{Message}
use dlstorage.Wire.{Socket, header_size, recv_into, recv_message_async}
use dlstorage.Wire.Stream.{stream, IsPiece}
use dlstorage.Wire.Pieces.{Takes, recv_into-Takes}
use dlstorage.Mux.{
  InFlight, new_flight, chunk, Outcome, waiting, failed, delivered, need, deserialise, handle_read,
}
use dlstorage.Mux.Flight.{
  IsGoing, wants, in_new_body, in_body, read_flight, read_flight-append, read_flight-none,
  read_flight_complete, read_flight-new,
}

module _ (loads : Bytes → Result Message) where
  -- The reads of one response, one turn for each time the selector finds bytes: each asks for
  -- what `_handle_read` asks for.
  unfoldable pub read_all : ℕ → InFlight → Socket → Outcome
  read_all zero f s = waiting f
  read_all (suc fuel) f s =
      let (got, t) = recv_into (need f) s in
      elim (handle_read loads f (chunk got)) [
        | waiting g ↦ read_all fuel g t
        | failed ↦ failed
        | delivered msg ↦ delivered msg
      ]

  module _ (e : Error) (empty : loads [] ≡ raise e) where
    abbrev turn : ℕ → InFlight → Bytes × Socket → Outcome
    turn fuel f (got, t) = elim (handle_read loads f (chunk got)) [
      | waiting g ↦ read_all fuel g t
      | failed ↦ failed
      | delivered msg ↦ delivered msg
    ]

    abbrev Reads : ℕ → Type 0
    Reads fuel =
        (f : InFlight) (s : Socket)
        → All IsPiece s.incoming
        → IsGoing f
        → length (stream s.incoming) < fuel
        → read_all fuel f s ≡ read_flight loads f (stream s.incoming)

    turn-Reads :
        (fuel : ℕ) (f : InFlight) (s : Socket) (x : Bytes × Socket)
        → Reads fuel
        → IsGoing f
        → length (stream s.incoming) < suc fuel
        → Takes (need f) s x
        → turn fuel f x ≡ read_flight loads f (stream s.incoming)
    unfolding handle_read
    turn-Reads fuel f s ([], t) later going enough k = sym (
        read_flight-none loads e empty f (stream s.incoming) going
          (λ wanted. none_left (k.some_byte wanted)))
      where
        none_left : (0 < length (stream s.incoming) → 0 < 0) → length (stream s.incoming) ≡ 0
        none_left h = elim (Bool-cases (ltb 0 (length (stream s.incoming)))) [
          | inl there ↦ absurd (
              let some : 0 < length (stream s.incoming) = ground (arith, there) in
              omega (arith, h some))
          | inr nothing ↦ ground (arith, nothing)
        ]
    turn-Reads fuel f s (b ∷ bs, t) later going enough k =
        let g : InFlight = record f { buf = f.buf ++ (b ∷ bs) } in
        let total = length-append f.buf (b ∷ bs) in
        let left : length (stream s.incoming) ≡ suc (length bs + length (stream t.incoming)) =
          rw (k.split) (ap suc (length-append bs (stream t.incoming))) in
        rw (k.split, read_flight-append loads f (b ∷ bs) (stream t.incoming) k.short)
          (elim (Bool-cases (ltb (length g.buf) g.expected)) [
            | inl more ↦
                let wanted : 0 < need g = ground (arith, more) in
                rw (turn, more) (later g t k.pieces (wants wanted) (omega (arith, enough, left)))
            | inr all ↦
                let nothing : need g ≡ 0 = ground (arith, all) in
                elim (Bool-cases f.hdr_done) [
                  | inl done ↦
                      rw (turn, all, done)
                        (over (loads g.buf)
                          ∙ sym (
                              (read_flight_complete loads (record g { hdr_done = true })
                                  (stream t.incoming) nothing).0
                                refl))
                  | inr started ↦
                      rw (turn, all, started)
                        (later (in_body g (from_bytes (take header_size g.buf))) t k.pieces
                            (in_new_body refl refl) (omega (arith, enough, left))
                          ∙ sym (
                              (read_flight_complete loads (record g { hdr_done = false })
                                  (stream t.incoming) nothing).1
                                refl))
                ]
          ])
      where
        over :
            (r : Result Message)
            → (elim (deserialise loads r) [
              | waiting g ↦ read_all fuel g t
              | failed ↦ failed
              | delivered msg ↦ delivered msg
            ])
              ≡ deserialise loads r
        over (ok msg) = refl
        over (raise e) = refl

    all-Reads : (fuel : ℕ) → Reads fuel
    unfolding read_all
    all-Reads zero f s pieces going enough = absurd (omega arith)
    all-Reads (suc fuel) f s pieces going enough =
        turn-Reads fuel f s (recv_into (need f) s) (all-Reads fuel) going enough
          (recv_into-Takes (need f) s pieces)

  -- However the response is cut into pieces, reading on until something comes of it gives what
  -- reading the framed message at once gives: its message, or a failure where that read raises.
  -- It always comes to one of the two, where there are more turns than bytes and where
  -- `pickle.loads(b"")` raises.
  pub read_all_lem :
      (a : Text) (call : ℕ) (s : Socket) (fuel : ℕ) (e : Error)
      → All IsPiece s.incoming
      → length (stream s.incoming) < fuel
      → loads [] ≡ raise e
      → read_all fuel (new_flight a call) s
        ≡ deserialise loads (recv_message_async loads (stream s.incoming)).0
  read_all_lem a call s fuel e pieces enough empty =
      all-Reads e empty fuel (new_flight a call) s pieces (wants (omega arith)) enough
      ∙ read_flight-new loads e empty a call (stream s.incoming)
