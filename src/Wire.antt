-- ===== src/Wire.antt =====
-- dlstorage/connection_pool/wire.py: messages on a byte stream. `dumps` and `loads` stand for
-- `pickle.dumps(m, protocol=HIGHEST_PROTOCOL)` and `pickle.loads`. What the peer sends arrives in
-- pieces that the operating system chooses; an empty piece, or none, is the end of the stream.
pub mod Stream
pub mod Frames
pub mod Pieces
use dlstorage.Base.{
  ℕ, zero, suc, ◌-◌, ltb, Bytes, from_bytes, to_bytes, List, [], ◌∷◌, ◌++◌, length, take, drop,
  if◌then◌else◌,
}
use Prim.Native.Nat.{◌^◌}
use dlstorage.Result.{Result, ok, raise, eof_error, overflow_error}
use dlstorage.Action.{Action, lift, ◌>>=◌}
use dlstorage.Types.{Message}

abbrev pub header_size : ℕ
header_size = 4

pub record Socket : Type 0 where
  pub incoming : List Bytes
  pub sent : Bytes

-- `n.to_bytes(4, "big")`, which raises `OverflowError` for a greater number
unfoldable pub header : ℕ → Result Bytes
header n = if ltb n (256 ^ header_size) then ok (to_bytes header_size n) else raise overflow_error

-- `sock.recv_into(view, n)`: at most `n` bytes of the next piece.
unfoldable pub recv_into : ℕ → Socket → Bytes × Socket
recv_into n s = next s.incoming
  where
    next : List Bytes → Bytes × Socket
    next [] = ([], s)
    next (c ∷ cs) =
        if ltb n (length c)
        then (take n c, record s { incoming = drop n c ∷ cs })
        else (c, record s { incoming = cs })

-- The loop of `_recvexactly`, with `n` bytes to go. Each turn reads at least one byte or raises.
unfoldable pub recv_loop : ℕ → ℕ → Bytes → Action Socket Bytes
recv_loop zero n buf s = (ok buf, s)
recv_loop (suc fuel) zero buf s = (ok buf, s)
recv_loop (suc fuel) (suc n) buf s =
    let (got, s') = recv_into (suc n) s in
    elim got [
      | [] ↦ (raise eof_error, s')
      | b ∷ bs ↦ recv_loop fuel (n - length bs) (buf ++ (b ∷ bs)) s'
    ]

-- `_recvexactly`
unfoldable pub recv_exactly : ℕ → Action Socket Bytes
recv_exactly n = recv_loop n n []

-- `await reader.readexactly(n)`, on what is still to come
unfoldable pub read_exactly : ℕ → Action Bytes Bytes
read_exactly n stream =
    if ltb (length stream) n then (raise eof_error, []) else (ok (take n stream), drop n stream)

with_body : Bytes → Result Bytes → Result Bytes
with_body body (ok head) = ok (head ++ body)
with_body body (raise e) = raise e

module _ (dumps : Message → Bytes) where
  -- `header + data`
  unfoldable pub frame : Message → Result Bytes
  unfolding with_body
  frame msg = with_body (dumps msg) (header (length (dumps msg)))

  unfoldable pub send_frame : Result Bytes → Action Socket Unit
  send_frame (raise e) s = (raise e, s)
  send_frame (ok bytes) s = (ok tt, record s { sent = s.sent ++ bytes })

  unfoldable pub send_message : Message → Action Socket Unit
  unfolding send_frame
  send_message msg = send_frame (frame msg)

  unfoldable pub send_frame_async : Result Bytes → Action Bytes Unit
  send_frame_async (raise e) sent = (raise e, sent)
  send_frame_async (ok bytes) sent = (ok tt, sent ++ bytes)

  -- The state is what the writer has been given; `drain` waits for the transport and adds nothing.
  unfoldable pub send_message_async : Message → Action Bytes Unit
  unfolding send_frame_async
  send_message_async msg = send_frame_async (frame msg)

module _ (loads : Bytes → Result Message) where
  unfoldable pub recv_message : Action Socket Message
  recv_message = do
    head ← recv_exactly header_size
    body ← recv_exactly (from_bytes head)
    lift (loads body)

  unfoldable pub recv_message_async : Action Bytes Message
  recv_message_async = do
    head ← read_exactly header_size
    body ← read_exactly (from_bytes head)
    lift (loads body)
