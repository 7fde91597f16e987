-- ===== src/Tests/Muxing.antt =====
-- The multiplexing pool on small inputs.
use dlstorage.Base.{
  codes, ℕ, pos, Text, Bytes, some, [], ◌∷◌, length, All, true, false, ◌+◌, ◌≤◌, ◌≡◌, refl, arith,
}
use dlstorage.Result.{Result, ok, raise, eof_error}
use dlstorage.Types.{Message, MessageType}
use dlstorage.Wire.{Socket, recv_message_async}
use dlstorage.Wire.Stream.{stream}
use dlstorage.Mux.{
  Mux, init, acquire, send, register, read, chunk, went_out, deserialise, new_flight,
}
use dlstorage.Mux.Counts.{count}
use dlstorage.Mux.Ledger.{places}
use dlstorage.Mux.Steps.{Reach, start, later, acquires, sends, registers, reads, places-Reach}
use dlstorage.Mux.Calls.{total, total-Step}
use dlstorage.Mux.Bounds.{IsBounded, Reach-IsBounded}
use dlstorage.Mux.Reader.{read_all, read_all_lem}

abbrev ping : Message
ping = record { type = MessageType.ping; payload = dlstorage.Base.none }

-- A pickle is not empty.
abbrev strict_loads : Bytes → Result Message
strict_loads [] = raise eof_error
strict_loads (b ∷ bs) = ok ping

-- Call 7 gets a new socket, number 3, sends on it, and its response comes in two chunks.
abbrev acquired : Mux
acquired = acquire (codes "a:1") 7 (some 3) init

abbrev sent : Mux
sent = send 3 went_out acquired

abbrev registered : Mux
registered = register sent

abbrev half_read : Mux
half_read = read (pos 2) strict_loads 3 (chunk (0 ∷ 0 ∷ 0 ∷ 1 ∷ [])) registered

abbrev answered : Mux
answered = read (pos 2) strict_loads 3 (chunk (7 ∷ [])) half_read

answered-Reach : Reach (pos 2) strict_loads answered
answered-Reach =
    later
      (later
        (later (later (later start (acquires (codes "a:1") 7 (some 3) refl)) (sends 3 went_out))
          registers)
        (reads 3 (chunk (0 ∷ 0 ∷ 0 ∷ 1 ∷ []))))
      (reads 3 (chunk (7 ∷ [])))

places-Reach_example : (places 3 answered ≡ count 3 answered.opened) × (places 3 answered ≤ 1)
places-Reach_example = places-Reach 3 answered-Reach

Reach-IsBounded_example : IsBounded 2 answered
Reach-IsBounded_example = Reach-IsBounded 2 strict_loads answered-Reach

total-Step_example : total 7 acquired ≡ 1 + total 7 init
total-Step_example =
    total-Step {max_per_peer = pos 2} {loads = strict_loads} 7
      (acquires (codes "a:1") 7 (some 3) refl)

-- The response in three pieces.
abbrev pieces : Socket
pieces = record { incoming = (0 ∷ 0 ∷ []) ∷ (0 ∷ []) ∷ (1 ∷ 7 ∷ []) ∷ []; sent = [] }

read_all_lem_example :
    read_all strict_loads 6 (new_flight (codes "a:1") 7) pieces
    ≡ deserialise strict_loads (recv_message_async strict_loads (stream pieces.incoming)).0
unfolding stream
read_all_lem_example =
    read_all_lem strict_loads (codes "a:1") 7 pieces 6 eof_error
      (omega arith, (omega arith, (omega arith, tt))) (omega arith) refl
