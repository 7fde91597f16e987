-- ===== src/Examples/Alike.antt =====
-- The two web servers against each other.
use dlstorage.Base.{if◌then◌else◌, Option, Text, ℤ, Bytes, none, some, ◌≡◌, ap}
use dlstorage.Result.{Result, ok}
use dlstorage.Action.{>>=-eq-ok}
use dlstorage.Types.{str, is_some_value}
use dlstorage.Node.Storage.{StorageNode, set, delete}
use dlstorage.Node.Storage.Agree.{async_set-agree, async_delete-agree}
use dlstorage.Node.Storage.Reads.{with_lww, async_get-get}
use dlstorage.Examples.{Response, json, failed}
use dlstorage.Examples.Flask
use dlstorage.Examples.Flask.{value_arg}
use dlstorage.Examples.Fastapi

module _ {S : Type 0} (sha256 : Text → Bytes) (node : StorageNode S) where
  abbrev lww_node : StorageNode S
  lww_node = with_lww sha256 node

  -- With the last-write-wins resolvers, and while the calls to the replicas run one after the
  -- other, the two servers are alike: they answer a GET with the same and leave the same state,
  -- and where the Flask server answers a PUT or a DELETE, the FastAPI server answers the same and
  -- leaves the same state.
  pub servers_agree :
      (key : Text) (arg : Option Text) (ts : ℤ) (s t u : S) (put_answer delete_answer : Response)
      → Flask.set_key sha256 lww_node key arg ts s ≡ (ok put_answer, t)
      → Flask.delete_key sha256 lww_node key ts s ≡ (ok delete_answer, u)
      → (Fastapi.get_key sha256 (some lww_node) key s
          ≡ (let (answer, s') = Flask.get_key sha256 lww_node key s in (ok answer, s')))
        × (Fastapi.set_key sha256 (some lww_node) key (str (value_arg arg)) ts s
            ≡ (ok put_answer, t))
        × (Fastapi.delete_key sha256 (some lww_node) key ts s ≡ (ok delete_answer, u))
  unfolding Flask.set_key Flask.delete_key Flask.get_key Fastapi.get_key Fastapi.set_key
      Fastapi.delete_key
  servers_agree key arg ts s t u put_answer delete_answer at_put at_delete =
      let value = str (value_arg arg) in
      let (b, t', stored, put) =
        >>=-eq-ok (set sha256 lww_node key value none ts) _ s t put_answer at_put in
      let (d, u', removed, dropped) =
        >>=-eq-ok (delete sha256 lww_node key ts) _ s u delete_answer at_delete in
      (
        ap
            (λ p.
              let answer : Result Response =
                ok (if is_some_value p.0 then json p.0 else failed 404) in
              (answer, p.1))
            (async_get-get sha256 lww_node key s),
        rw (async_set-agree sha256 lww_node key value none ts s t' b stored) put,
        rw (async_delete-agree sha256 lww_node key ts s u' d removed) dropped,
      )
