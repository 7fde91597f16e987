-- ===== src/Pool/Sockets.antt =====
-- `_new_connection` of dlstorage/connection_pool/sync.py, on the sockets of the operating system.
use dlstorage.Base.{Text, ℕ, ℤ, Bool, Option, none, some, if◌then◌else◌}
use dlstorage.Result.{Result}
use dlstorage.Types.{Message}
use dlstorage.Pool.{Network}

pub record Sockets (W : Type 0) : Type 0 where
  -- `socket.socket`
  pub create : W → ℕ × W
  -- `s.connect`, and whether it has not raised
  pub connect : ℕ → Text → ℤ → W → Bool × W
  -- `send_message` and `recv_message`
  pub exchange : ℕ → Message → W → Result Message × W
  -- `sock.close`
  pub close : ℕ → W → W
  -- what becomes of a socket object that nothing refers to any longer
  pub collect : ℕ → W → W

-- A socket that could not be connected is dropped, and not closed.
unfoldable pub new_connection : {W : Type 0} → Sockets W → Text → ℤ → W → Option ℕ × W
new_connection os host port w =
    let (sock, w') = os.create w in
    let (done, w'') = os.connect sock host port w' in
    if done then (some sock, w'') else (none, os.collect sock w'')

abbrev pub network : {W : Type 0} → Sockets W → Network W
network os = record { connect = new_connection os; exchange = os.exchange; close = os.close }
