-- ===== src/Node/Server/Async.antt =====
-- dlstorage/node/async_.py: the same connection, with a stream reader and a stream writer. A message
-- is never false, so that the `assert` passes.
pub mod Fuel
use dlstorage.Base.{ℕ, zero, suc, Bytes, ◌++◌, All, ◌≡◌, refl, sym, ap, ◌∙◌}
use mathlib.Core.Path.{subst}
use dlstorage.Result.{Result, ok, raise}
use dlstorage.Action.{Action}
use dlstorage.Types.{Message}
use dlstorage.Wire.{
  Socket, frame, send_frame, send_frame_async, send_message, send_message_async, recv_message,
  recv_message_async,
}
use dlstorage.Wire.Stream.{stream, IsPiece}
use dlstorage.Wire.Frames.{IsAlike, recv_message-IsAlike}
use dlstorage.Node.Server.{send, turn, answer, go_on, handle_client}
use dlstorage.Node.Server.Replies.{sent-recv_message}

-- What is still to be read, and what has been written.
pub record Peer : Type 0 where
  pub reader : Bytes
  pub writer : Bytes

module _ {N : Type 0} (dumps : Message → Bytes) (loads : Bytes → Result Message)
    (handle : Message → Action N Message) where
  abbrev pub AsyncTurn : Type 0
  AsyncTurn = Result {0} Unit × Peer × N

  async_send : Bytes → Bytes → Result Message → N → AsyncTurn
  async_send rest sent (raise e) m = (raise e, record { reader = rest; writer = sent }, m)
  async_send rest sent (ok response) m =
      let (r, sent') = send_message_async dumps response sent in
      (r, record { reader = rest; writer = sent' }, m)

  async_answer : Bytes → Result Message × Bytes → N → AsyncTurn
  async_answer sent (raise e, rest) n = (raise e, record { reader = rest; writer = sent }, n)
  async_answer sent (ok msg, rest) n = async_send rest sent (handle msg n).0 (handle msg n).1

  -- One turn of the loop of the async `_handle_client`.
  unfoldable pub async_turn : Peer → N → AsyncTurn
  unfolding async_send async_answer
  async_turn p n = async_answer p.writer (recv_message_async loads p.reader) n

  async_go_on : (Peer → N → Peer × N) → AsyncTurn → Peer × N
  async_go_on next (raise e, p, n) = (p, n)
  async_go_on next (ok u, p, n) = next p n

  unfoldable pub async_handle_client : ℕ → Peer → N → Peer × N
  unfolding async_go_on
  async_handle_client zero p n = (p, n)
  async_handle_client (suc fuel) p n = async_go_on (async_handle_client fuel) (async_turn p n)

  -- Both loops have written the same and left the node in the same state.
  abbrev pub SameEnd : Socket × N → Peer × N → Type 0
  SameEnd (s, n) (p, m) = (s.sent ≡ p.writer) × (n ≡ m)

  module _ (next : Socket → N → Socket × N) (async_next : Peer → N → Peer × N)
      (alike_next : (s : Socket) (p : Peer) (n : N)
        → All IsPiece s.incoming
        → stream s.incoming ≡ p.reader
        → s.sent ≡ p.writer
        → SameEnd (next s n) (async_next p n)) where
    framed-SameEnd :
        (f : Result Bytes) (s : Socket) (rest sent : Bytes) (n : N)
        → All IsPiece s.incoming
        → stream s.incoming ≡ rest
        → s.sent ≡ sent
        → SameEnd
            (go_on dumps loads handle next ((send_frame dumps f s).0, (send_frame dumps f s).1, n))
            (async_go_on async_next (
              (send_frame_async dumps f sent).0,
              record { reader = rest; writer = (send_frame_async dumps f sent).1 },
              n,
            ))
    unfolding go_on async_go_on send_frame send_frame_async
    framed-SameEnd (raise e) s rest sent n pieces left kept = (kept, refl)
    framed-SameEnd (ok bytes) s rest sent n pieces left kept =
        alike_next (record s { sent = s.sent ++ bytes })
          (record { reader = rest; writer = sent ++ bytes }) n pieces left
          (ap (λ x. x ++ bytes) kept)

    send-SameEnd :
        (r : Result Message) (s : Socket) (rest sent : Bytes) (n : N)
        → All IsPiece s.incoming
        → stream s.incoming ≡ rest
        → s.sent ≡ sent
        → SameEnd
            (go_on dumps loads handle next (send dumps loads handle s r n))
            (async_go_on async_next (async_send rest sent r n))
    unfolding send async_send send_message send_message_async go_on async_go_on
    send-SameEnd (raise e) s rest sent n pieces left kept = (kept, refl)
    send-SameEnd (ok response) s rest sent n pieces left kept =
        framed-SameEnd (frame dumps response) s rest sent n pieces left kept

    answer-SameEnd :
        (x : Result Message × Socket) (y : Result Message × Bytes) (sent : Bytes) (n : N)
        → IsAlike x y
        → x.1.sent ≡ sent
        → SameEnd
            (go_on dumps loads handle next (answer dumps loads handle x n))
            (async_go_on async_next (async_answer sent y n))
    unfolding answer async_answer go_on async_go_on
    answer-SameEnd (ok msg, s) (r, rest) sent n like kept =
        rw (like.0, async_answer)
          (send-SameEnd (handle msg n).0 s rest sent (handle msg n).1 like.2 like.1 kept)
    answer-SameEnd (raise e, s) (r, rest) sent n like kept = rw (like, async_answer) (kept, refl)

  loop-SameEnd :
      (fuel : ℕ) (s : Socket) (p : Peer) (n : N)
      → All IsPiece s.incoming
      → stream s.incoming ≡ p.reader
      → s.sent ≡ p.writer
      → SameEnd (handle_client dumps loads handle fuel s n) (async_handle_client fuel p n)
  unfolding handle_client async_handle_client turn async_turn
  loop-SameEnd zero s p n pieces left kept = (kept, refl)
  loop-SameEnd (suc fuel) s p n pieces left kept =
      answer-SameEnd (handle_client dumps loads handle fuel) (async_handle_client fuel)
        (loop-SameEnd fuel) (recv_message loads s) (recv_message_async loads p.reader) p.writer n
        (subst (λ b. IsAlike (recv_message loads s) (recv_message_async loads b)) left
          (recv_message-IsAlike loads s pieces))
        (sent-recv_message loads s ∙ kept)

  -- However the bytes of a client are cut into pieces for the sync server, and whatever they are, the
  -- sync server and the async one, which reads the same bytes and has written the same so far, write
  -- the same replies and leave the node in the same state, after any number of turns.
  pub async_handle_client-handle_client :
      (fuel : ℕ) (s : Socket) (p : Peer) (n : N)
      → All IsPiece s.incoming
      → stream s.incoming ≡ p.reader
      → s.sent ≡ p.writer
      → ((handle_client dumps loads handle fuel s n).0.sent
          ≡ (async_handle_client fuel p n).0.writer)
        × ((handle_client dumps loads handle fuel s n).1 ≡ (async_handle_client fuel p n).1)
  async_handle_client-handle_client = loop-SameEnd
