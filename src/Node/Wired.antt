-- ===== src/Node/Wired.antt =====
-- A request from one node to another, all the way: connection_pool/wire.py on both sides, with the
-- server's loop of node/sync.py in between. The request has a connection of its own.
pub mod Refine
use dlstorage.Base.{ℕ, Bytes, List, [], Option, none, some, All, ◌≡◌}
use dlstorage.Result.{Result, ok, raise}
use dlstorage.Action.{Action}
use dlstorage.Types.{Message}
use dlstorage.Wire.{Socket, send_message, recv_message}
use dlstorage.Wire.Stream.{stream, IsPiece}
use dlstorage.Node.Server.{handle_client}

-- How the network cuts what is sent into pieces.
abbrev pub IsCut : (Bytes → List Bytes) → Type 0
IsCut cut = (b : Bytes) → (stream (cut b) ≡ b) × All IsPiece (cut b)

-- What the other end of a connection sees of the bytes that have been sent on it.
abbrev pub arriving : (Bytes → List Bytes) → Bytes → Socket
arriving cut bytes = record { incoming = cut bytes; sent = [] }

module _ {N : Type 0} (dumps : Message → Bytes) (loads : Bytes → Result Message)
    (handle : Message → Action N Message) (there back : Bytes → List Bytes) where
  serve : ℕ → Result {0} Unit × Socket → N → Result Message × N
  serve fuel (raise e, client) n = (raise e, n)
  serve fuel (ok u, client) n =
      let (server, n') = handle_client dumps loads handle fuel (arriving there client.sent) n in
      ((recv_message loads (arriving back server.sent)).0, n')

  -- `send_message`, the loop of `_handle_client` at the other end, and `recv_message`.
  unfoldable pub over_wire : ℕ → Message → Action N Message
  unfolding serve
  over_wire fuel msg n = serve fuel (send_message dumps msg (record { incoming = []; sent = [] })) n
