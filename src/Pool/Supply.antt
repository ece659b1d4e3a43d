-- ===== src/Pool/Supply.antt =====
-- transport/h1pool/client.go: how shared clients are added. The table is a `sync.Map`; a time is a number
-- of seconds, and the part of the new client's id that is random is an argument.
pub mod Bound
use df.Prelude.{ℕ, ◌+◌, ◌==◌, ◌&&◌, Bool, false, List, [], ◌∷◌, ltb, if◌then◌else◌}
use df.Io.{Result, ok, err, panic}
use df.SyncMap.{store, delete}
use df.Conf.{Values}
use df.H1.Client.{Client, new_client}
use df.Pool.Client.{SharedClient, DividedClient, new_divided_client}

abbrev pub Table : Type 0
Table = List (List ℕ × SharedClient)

-- `newClient`.
unfoldable pub new_shared_client : ℕ → List ℕ → SharedClient
new_shared_client now id = record {
  id = id;
  connected = false;
  last_pong_unix = 0;
  last_ping_unix = 0;
  last_data_unix = 0;
  created_at = now;
  bytes_recv = 0;
  bytes_sent = 0;
}

-- The `Range` of `tryAddNewSharedClient`: `total` and `healthyCount`.
unfoldable pub count : ℕ → Table → ℕ × ℕ
count now [] = (0, 0)
count now ((id, sc) ∷ table) =
    let rest = count now table in
    (rest.0 + 1, if ltb now (sc.created_at + 300) then rest.1 + 1 else rest.1)

abbrev pub added : ℕ → List ℕ → Table → Result Client → Result Table
added now id table (ok cl) = ok (store id (new_shared_client now id) table)
added now id table (err e) = err e
added now id table panic = panic

unfoldable pub try_add_new_shared_client : Values → ℕ → List ℕ → Table → Result Table
unfolding count new_shared_client
try_add_new_shared_client cfg now id table =
    if ltb (count now table).0 5 && (count now table).1 == 0
    then added now id table (new_client cfg id)
    else ok table

abbrev pub with_client :
    List ℕ
    → List (List ℕ × DividedClient)
    → Result Table
    → Result (Table × List (List ℕ × DividedClient))
with_client client_id clients (ok table) =
    ok (table, store client_id (new_divided_client client_id) clients)
with_client client_id clients (err e) = err e
with_client client_id clients panic = panic

-- `getClient`, but for the worker that it starts.
unfoldable pub get_client :
    Values
    → ℕ
    → List ℕ
    → List ℕ
    → Table
    → List (List ℕ × DividedClient)
    → Result (Table × List (List ℕ × DividedClient))
get_client cfg now id client_id table clients =
    with_client client_id clients (try_add_new_shared_client cfg now id table)

-- What changes the table: an attempt to add a client, and the end of one.
pub data Change : Type 0 where
  adds : ℕ → List ℕ → Change
  exits : List ℕ → Change

abbrev pub kept : Table → Result Table → Table
kept table (ok table') = table'
kept table (err e) = table
kept table panic = table

unfoldable pub change : Values → Change → Table → Table
unfolding try_add_new_shared_client
change cfg (adds now id) table = kept table (try_add_new_shared_client cfg now id table)
change cfg (exits id) table = delete id table
