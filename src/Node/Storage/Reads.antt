-- ===== src/Node/Storage/Reads.antt =====
-- dlstorage/node/async_.py, `get`, with the resolver `AsyncLWW` of dlstorage/consistency/lww.py.
use dlstorage.Base.{Text, Bytes, Option, List, [], ◌∷◌, map, ◌≡◌, refl, ap, ◌∙◌, none}
use dlstorage.Result.{Result, ok, raise, catch}
use dlstorage.Types.{NodeInfo, Value}
use dlstorage.Store.Lww.{Versioned}
use dlstorage.Handle.{ReplicaHandle, Answer, returned, raised}
use dlstorage.Consistency.Lww
use dlstorage.Consistency.Lww.{worth, pick, collect, async_read_resolve, async_read_resolve-eq-pick}
use dlstorage.Node.Storage.{
  StorageNode, make_handles, async_make_handles, candidates, get, get_from,
}

abbrev pub answer_of : Result (Option Versioned) → Answer (Option Versioned)
answer_of (ok r) = returned r
answer_of (raise e) = raised

worth-answer_of : (r : Result (Option Versioned)) → worth (answer_of r) ≡ catch none r
worth-answer_of (ok r) = refl
worth-answer_of (raise e) = refl

module _ {S : Type 0} where
  -- `gather(*[get_versioned(h) for h in replica_handles])`: the calls run one after the other, in
  -- their order, and none is cancelled.
  unfoldable pub gather_versions :
      Text → List (ReplicaHandle S) → S → List (Answer (Option Versioned)) × S
  gather_versions key [] s = ([], s)
  gather_versions key (h ∷ hs) s =
      let (r, s') = h.get_versioned key s in
      let (answers, s'') = gather_versions key hs s' in (answer_of r ∷ answers, s'')

  unfoldable pub async_resolve : Text → List (ReplicaHandle S) → S → Value × S
  async_resolve key hs s =
      let (answers, s') = gather_versions key hs s in (async_read_resolve answers, s')

  abbrev worth_all : List (Answer (Option Versioned)) × S → List (Option Versioned) × S
  worth_all (answers, s) = (map worth answers, s)

  collect-gather_versions :
      (key : Text) (hs : List (ReplicaHandle S)) (s : S)
      → worth_all (gather_versions key hs s) ≡ collect key hs s
  unfolding gather_versions collect
  collect-gather_versions key [] s = refl
  collect-gather_versions key (h ∷ hs) s =
      rw
        (
          worth-answer_of (h.get_versioned key s).0,
          ap (λ p. p.0) (collect-gather_versions key hs (h.get_versioned key s).1),
          ap (λ p. p.1) (collect-gather_versions key hs (h.get_versioned key s).1),
        )
        refl

  async_resolve_lem :
      (key : Text) (hs : List (ReplicaHandle S)) (s : S)
      → async_resolve key hs s ≡ dlstorage.Consistency.Lww.read_resolve key hs s
  unfolding async_resolve dlstorage.Consistency.Lww.read_resolve
  async_resolve_lem key hs s =
      ap (λ a. (a, (gather_versions key hs s).1))
        (async_read_resolve-eq-pick (gather_versions key hs s).0)
      ∙ ap (λ p. (pick p.0, p.1)) (collect-gather_versions key hs s)

module _ {S : Type 0} (sha256 : Text → Bytes) (node : StorageNode S) where
  pub async_get_from : Text → List NodeInfo → S → Value × S
  async_get_from key [] = node.store_get key
  async_get_from key (n ∷ ns) = async_resolve key (async_make_handles node (n ∷ ns))

  unfoldable pub async_get : Text → S → Value × S
  unfolding async_get_from
  async_get key = async_get_from key (candidates sha256 node key)

  abbrev pub with_lww : StorageNode S
  with_lww = record node { read_resolve = dlstorage.Consistency.Lww.read_resolve }

  get_from-agree :
      (key : Text) (ns : List NodeInfo) (s : S)
      → async_get_from key ns s ≡ get_from sha256 with_lww key ns s
  unfolding async_get_from get_from
  get_from-agree key [] s = refl
  get_from-agree key (n ∷ ns) s = async_resolve_lem key (make_handles node (n ∷ ns)) s

  -- With the last-write-wins resolvers a `get` of the async node, whose calls to the replicas run
  -- one after the other and are not cancelled, returns what a `get` of the sync node returns and
  -- leaves the same state, also where replicas raise.
  pub async_get-get : (key : Text) (s : S) → async_get key s ≡ get sha256 with_lww key s
  unfolding async_get get
  async_get-get key s = get_from-agree key (candidates sha256 node key) s
