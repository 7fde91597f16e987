-- ===== src/Tests/Serving.antt =====
-- The web servers on small inputs.
use dlstorage.Base.{
  pos, Text, codes, text_eq, none, some, List, [], ◌∷◌, length, map, ◌≡◌, ◌≢◌, refl, arith, ap,
}
use dlstorage.Dict
use dlstorage.Result.{ok}
use dlstorage.Types.{NodeInfo, node_eq, Value, null, str, address}
use dlstorage.Ring.{RendezvousRing, get_nodes, score}
use dlstorage.Ring.Route.{get_nodes-top}
use dlstorage.Store.Lww
use dlstorage.Node.Handles.{local_handle}
use dlstorage.Node.Handles.Remote.{connected}
use dlstorage.Node.Storage.{StorageNode}
use dlstorage.Store.Lww.{LocalLwwStore}
use dlstorage.Node.Storage.Reads.{with_lww}
use dlstorage.Node.Cluster.{Clocks}
use dlstorage.Node.Cluster.Single.{single_reads}
use dlstorage.Examples.{json, no_content, failed}
use dlstorage.Examples.Flask
use dlstorage.Examples.Served.{
  Request, put_request, delete_request, get_request, call_of, shown, served, served-single_reads,
}
use dlstorage.Tests.Samples.{toy_digest, node_a, node_b, node_c, ring_abc}

abbrev x_key : Text
x_key = codes "x"

abbrev clocks : Clocks
clocks = record { now = λ n. n.port; clock = λ n. pos 3 }

abbrev requests : List Request
requests =
    get_request clocks node_c x_key
    ∷ put_request clocks node_a x_key (some (codes "v")) (pos 4)
    ∷ get_request clocks node_b x_key
    ∷ delete_request clocks node_c x_key (pos 6)
    ∷ get_request clocks node_a x_key
    ∷ []

routed : (k : Text) → get_nodes toy_digest k (pos 2) ring_abc ≢ []
routed k none_left =
    let (rest, perm, long, _, _) = get_nodes-top toy_digest k 2 ring_abc in
    omega (arith, long, ap length none_left)

served-single_reads_example :
    served toy_digest ring_abc (pos 2) requests (λ n. Lww.init)
    ≡ map shown (single_reads (map call_of requests) Lww.init)
served-single_reads_example =
    served-single_reads toy_digest ring_abc (pos 2) requests routed
      (tt, (omega arith, (tt, (omega arith, (tt, tt)))))

shown-requests :
    map shown (single_reads (map call_of requests) Lww.init)
    ≡ failed 404 ∷ json (str (codes "v")) ∷ failed 404 ∷ []
unfolding single_reads Lww.set Lww.get Lww.get_versioned Lww.delete Dict.get Dict.put text_eq
    dlstorage.Store.deadline
shown-requests = refl

-- A node that is alone in its ring.
abbrev lone : StorageNode LocalLwwStore
lone = record {
  info = node_a;
  store_get = Lww.get (pos 1);
  local = local_handle (pos 1) (pos 1);
  ring = record { members = node_a ∷ [] };
  pool = connected (pos 1) (pos 1);
  read_resolve = dlstorage.Consistency.Lww.read_resolve;
  replication = pos 2;
}

abbrev lone_lww : StorageNode LocalLwwStore
lone_lww = with_lww toy_digest lone

lone_put :
    Flask.set_key toy_digest lone_lww x_key none (pos 4) Lww.init
    ≡ (ok no_content, (Flask.set_key toy_digest lone_lww x_key none (pos 4) Lww.init).1)
unfolding Flask.set_key dlstorage.Node.Storage.set dlstorage.Node.Storage.call_all get_nodes
    dlstorage.Ring.Rank.sort_by score node_eq text_eq address dlstorage.Types.Decimal.str_int
    local_handle Lww.set Dict.get Dict.put dlstorage.Store.deadline
lone_put = refl

lone_delete :
    Flask.delete_key toy_digest lone_lww x_key (pos 4) Lww.init
    ≡ (ok (failed 404), (Flask.delete_key toy_digest lone_lww x_key (pos 4) Lww.init).1)
unfolding Flask.delete_key dlstorage.Node.Storage.delete dlstorage.Node.Storage.call_all get_nodes
    dlstorage.Ring.Rank.sort_by score node_eq text_eq address dlstorage.Types.Decimal.str_int
    local_handle Lww.delete Dict.get Dict.put
lone_delete = refl
