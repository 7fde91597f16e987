-- ===== src/Node/Cluster/Concurrent.antt =====
-- Calls of `set` and `delete` of dlstorage/node/sync.py and async_.py that run at the same time: each
-- goes to its replicas one by one, and between two of them other calls and reads may come. A thread
-- of a sync node goes through the replicas in their order, the tasks of an async node in any order.
pub mod Settle
pub mod Kept
pub mod Runs
pub mod Alone
use dlstorage.Base.{Text, ℤ, Bytes, Bool, none, some, List, [], ◌∷◌, ◌++◌, map}
use dlstorage.Action.{Action}
use dlstorage.Types.{NodeInfo, Value}
use dlstorage.Ring.{RendezvousRing, get_nodes}
use dlstorage.Handle.{ReplicaHandle}
use dlstorage.Store.Lww.Converge.{Write, set_write, delete_write}
use dlstorage.Node.Cluster.{World, Clocks}
use dlstorage.Node.Cluster.Through.{handle}

-- A call at some node, with the timestamp that it takes when it begins. No value has a time to live.
pub data Work : Type 0 where
  setting : NodeInfo → Text → Value → ℤ → Work
  deleting : NodeInfo → Text → ℤ → Work

abbrev pub work_key : Work → Text
work_key (setting info key value ts) = key
work_key (deleting info key ts) = key

abbrev pub work_info : Work → NodeInfo
work_info (setting info key value ts) = info
work_info (deleting info key ts) = info

abbrev pub work_ts : Work → ℤ
work_ts (setting info key value ts) = ts
work_ts (deleting info key ts) = ts

-- What the call does to each of its handles.
abbrev pub call_of : Work → ReplicaHandle World → Action World Bool
call_of (setting info key value ts) h = h.set key value none ts
call_of (deleting info key ts) h = h.delete key ts

-- The same call to a single store, whose clocks show `now` and `clock`.
abbrev pub write_of : ℤ → ℤ → Work → Write
write_of now clock (setting info key value ts) = set_write now clock key value none (some ts)
write_of now clock (deleting info key ts) = delete_write clock key (some ts)

-- A call, and the replicas that it has still to go to.
pub record Thread : Type 0 where
  pub work : Work
  pub left : List NodeInfo

pub record Running : Type 0 where
  pub world : World
  pub threads : List Thread

module _ (sha256 : Text → Bytes) (ring : RendezvousRing) (replication : ℤ) where
  abbrev pub begin_call : Work → Thread
  begin_call work = record { work = work; left = get_nodes sha256 (work_key work) replication ring }

  abbrev pub start : List Work → World → Running
  start works w = record { world = w; threads = map begin_call works }

module _ (ring : RendezvousRing) (replication : ℤ) where
  -- The world after a call has gone to one replica.
  abbrev pub acted : Clocks → Work → NodeInfo → World → World
  acted c work n w =
      (call_of work (handle c (work_info work) ring replication (work_key work) n) w).1

  pub data Step : Running → Running → Type 0 where
    -- some call goes to one of its replicas
    acts :
        (c : Clocks) (before after : List Thread) (work : Work) (ls rs : List NodeInfo)
        (n : NodeInfo) (w : World)
        → Step
            (record {
              world = w;
              threads = before ++ (record { work = work; left = ls ++ (n ∷ rs) } ∷ after);
            })
            (record {
              world = acted c work n w;
              threads = before ++ (record { work = work; left = ls ++ rs } ∷ after);
            })
    -- some reader asks a replica
    asks :
        (c : Clocks) (info : NodeInfo) (key : Text) (n : NodeInfo) (w : World)
        (threads : List Thread)
        → Step
            (record { world = w; threads = threads })
            (record {
              world = ((handle c info ring replication key n).get_versioned key w).1;
              threads = threads;
            })

  pub data Reach (s : Running) : Running → Type 0 where
    here : Reach s s
    later : {t u : Running} → Reach s t → Step t u → Reach s u
