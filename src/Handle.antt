-- ===== src/Handle.antt =====
-- dlstorage/node/interface.py: the handle through which a node uses a replica, local or remote.
-- `S` is whatever state the calls run in.
use dlstorage.Base.{ℤ, Text, Bool, Option}
use dlstorage.Action.{Action}
use dlstorage.Types.{Value, Message}
use dlstorage.Store.Lww.{Versioned}

pub record ReplicaHandle (S : Type 0) : Type 0 where
  pub get_versioned : Text → Action S (Option Versioned)
  pub set : Text → Value → Option ℤ → ℤ → Action S Bool
  pub delete : Text → ℤ → Action S Bool

-- dlstorage/connection_pool/interface.py
pub record ConnectionPool (S : Type 0) : Type 0 where
  pub execute : Text → ℤ → Message → Action S (Option Message)
  pub close_peer : Text → ℤ → S → S
  pub close_all : S → S

-- How an awaited call ends: a cancellation is no `Exception`, so `except Exception` lets it pass.
pub data Answer (A : Type 0) : Type 0 where
  returned : A → Answer A
  raised : Answer A
  cancelled : Answer A
