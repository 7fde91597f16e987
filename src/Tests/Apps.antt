-- ===== src/Tests/Apps.antt =====
-- The applications around a node, from their start to their end.
use dlstorage.Base.{
  text_eq, ℕ, some, pos, Text, codes, true, false, none, List, [], ◌∷◌, All, ◌≡◌, refl,
}
use dlstorage.Result.{Result, ok, raise, key_error}
use dlstorage.Ring.{RendezvousRing}
use dlstorage.Discovery.{static}
use dlstorage.Store.Lww
use dlstorage.Store.Lww.{LocalLwwStore, Entry, live}
use dlstorage.Node.Handles.{local_handle}
use dlstorage.Node.Handles.Remote.{connected}
use dlstorage.Node.Storage.{StorageNode}
use dlstorage.Examples.{failed}
use dlstorage.Examples.Fastapi
use dlstorage.Examples.Compose
use dlstorage.Examples.Lifespan.{
  App, Request, get_request, put_request, delete_request, health_request, answer_all, startup,
  shutdown,
}
use dlstorage.Examples.Lifespan.Ready.{is_503, lifespan_lem}
use dlstorage.Node.Background.{purge_loop, async_purge_loop}
use dlstorage.Node.Lifecycle.{Life}
use dlstorage.Node.Lifecycle.Managed.{async_with_node, async_with_node_lem}
use dlstorage.Tests.Samples.{toy_digest, node_a, node_c, seven}

abbrev x_key : Text
x_key = codes "x"

abbrev on_ring : RendezvousRing → StorageNode LocalLwwStore
on_ring ring = record {
  info = node_a;
  store_get = Lww.get (pos 1);
  local = local_handle (pos 1) (pos 1);
  ring = ring;
  pool = connected (pos 1) (pos 1);
  read_resolve = dlstorage.Consistency.Lww.read_resolve;
  replication = pos 2;
}

abbrev kept : LocalLwwStore → ℕ
kept s = Lww.count (pos 1) s

abbrev idle_app : App LocalLwwStore
idle_app = record {
  created = false;
  life = record {
    peers = record {
      ring = record { members = [] };
      discovery = static (node_c ∷ []);
      pool = Lww.init;
    };
    listening = false;
    gossiping = false;
    stopped = false;
  };
}

-- A value with the deadline 2.
abbrev short_lived : Entry
short_lived = record { slot = live seven; expires_at = some (pos 2); ts = pos 1 }

abbrev raising : {A : Type 0} → Life LocalLwwStore → Result A × Life LocalLwwStore
raising n = (raise key_error, n)

abbrev puts : List Request
puts =
    put_request x_key seven (pos 4)
    ∷ get_request x_key
    ∷ delete_request x_key (pos 5)
    ∷ health_request
    ∷ []

lifespan_lem_example :
    let (early, app1) = answer_all toy_digest kept on_ring (get_request x_key ∷ []) idle_app in
    let (started, app2) =
      startup node_a (connected (pos 1) (pos 1)) (λ d. ok (node_c ∷ [])) (ok tt) app1 in
    let (served, app3) = answer_all toy_digest kept on_ring puts app2 in
    let app4 = shutdown node_a (connected (pos 1) (pos 1)) app3 in
    let (late, app5) = answer_all toy_digest kept on_ring puts app4 in
    All (λ r. is_503 r ≡ true) early
    × (app1 ≡ idle_app)
    × (started ≡ ok tt)
    × All (λ r. is_503 r ≡ false) served
    × All (λ r. is_503 r ≡ true) late
    × (app5 ≡ app4)
lifespan_lem_example =
    lifespan_lem toy_digest kept on_ring node_a (connected (pos 1) (pos 1)) (λ d. ok (node_c ∷ []))
      (ok tt) (node_c ∷ []) (get_request x_key ∷ []) puts puts idle_app refl refl

-- The container's application without its node.
compose-not_ready :
    (Compose.get_key toy_digest none x_key Lww.init ≡ (ok (failed 503), Lww.init))
    × (Compose.set_key toy_digest none x_key seven (pos 4) Lww.init ≡ (ok (failed 503), Lww.init))
    × (Compose.delete_key toy_digest none x_key (pos 4) Lww.init ≡ (ok (failed 503), Lww.init))
    × (Compose.health toy_digest none kept Lww.init ≡ (ok (failed 503), Lww.init))
unfolding Fastapi.get_key Fastapi.set_key Fastapi.delete_key Fastapi.health
compose-not_ready = (refl, refl, refl, refl)

compose-cycle :
    let (started, app) =
      Compose.startup node_a (connected (pos 1) (pos 1)) (λ d. ok (node_c ∷ [])) (ok tt) idle_app in
    (started ≡ ok tt) × ((Compose.shutdown node_a (connected (pos 1) (pos 1)) app).created ≡ false)
unfolding startup shutdown dlstorage.Node.Lifecycle.async_start
compose-cycle = (refl, refl)

-- The purge of an async node, cancelled after its second sweep.
async_purge_loop-cancelled :
    async_purge_loop
      (some (pos 1) ∷ some (pos 3) ∷ none ∷ some (pos 4) ∷ [])
      (record { entries = (x_key, short_lived) ∷ [] })
    ≡ Lww.init
unfolding purge_loop Lww.purge_expired dlstorage.Dict.get dlstorage.Dict.select
    dlstorage.Dict.remove_all dlstorage.Dict.remove text_eq
async_purge_loop-cancelled = refl

-- A block that raises in an async node.
async_with_node-raising :
    (async_with_node node_a
      (connected (pos 1) (pos 1))
      (λ d. ok (node_c ∷ []))
      (ok tt)
      (raising {A = ℕ})
      idle_app.life).0
    ≡ raise key_error
async_with_node-raising =
    (async_with_node_lem node_a (connected (pos 1) (pos 1)) (λ d. ok (node_c ∷ [])) (node_c ∷ [])
      raising idle_app.life refl).0
