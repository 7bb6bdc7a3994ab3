-- ===== src/Runs/Tables.antt =====
-- A Redis for the runs whose hashes can be listed: their fields are cells, the newest first, and the
-- rest of it is a store.
use sidero_proxy.Base.{
  ℕ, ◌≡◌, refl, ◌&&◌, ◌+◌, true, Option, none, some, List, [], ◌∷◌, if◌then◌else◌, Bytes, bytes_eq,
  arith,
}
use sidero_proxy.Base.Dict.{Dict, lookup, insert, lookup-insert}
use sidero_proxy.Redis.{
  Store, Redis, HashReader, hset_on, set_on, incr_on, sadd_on, expire_on, persist_on, empty_store,
}

pub record Table : Type 0 where
  pub store : Store
  pub cells : List (Bytes × Bytes × Bytes)

unfoldable pub find : Bytes → Bytes → List (Bytes × Bytes × Bytes) → Option Bytes
find k f [] = none
find k f ((j, g, v) ∷ cells) =
    let rest = find k f cells in if bytes_eq j k && bytes_eq g f then some v else rest

unfoldable pub collect : Bytes → List (Bytes × Bytes × Bytes) → Dict Bytes
unfolding insert
collect k [] = []
collect k ((j, g, v) ∷ cells) =
    let rest = collect k cells in if bytes_eq j k then insert g v rest else rest

pub lookup-collect :
    (k f : Bytes) (cells : List (Bytes × Bytes × Bytes))
    → lookup f (collect k cells) ≡ find k f cells
unfolding lookup find collect
lookup-collect k f [] = refl
lookup-collect k f ((j, g, v) ∷ cells) =
    ground (arith, lookup-collect k f cells, lookup-insert g f v (collect k cells))

unfoldable pub view_of : Table → Store
unfolding find
view_of t = record (t.store) { hash = λ k f. find k f t.cells }

abbrev pub on_store : (Store → Store) → Table → Table
on_store f t = record t { store = f t.store }

abbrev pub mark_present : Bytes → Store → Store
mark_present k s = record s { present = λ j. if bytes_eq k j then true else s.present j }

unfoldable pub put_cell : Bytes → Bytes → Bytes → Table → Table
put_cell k f v t = record { store = mark_present k t.store; cells = (k, f, v) ∷ t.cells }

pub hget-view_of : (k f : Bytes) (t : Table) → find k f t.cells ≡ (view_of t).hash k f
unfolding view_of
hget-view_of k f t = refl

pub get-view_of : (k : Bytes) (t : Table) → t.store.text k ≡ (view_of t).text k
unfolding view_of
get-view_of k t = refl

pub sismember-view_of : (k m : Bytes) (t : Table) → t.store.member k m ≡ (view_of t).member k m
unfolding view_of
sismember-view_of k m t = refl

pub view_of-put_cell :
    (k f v : Bytes) (t : Table) → view_of (put_cell k f v t) ≡ hset_on k f v (view_of t)
unfolding view_of find hset_on put_cell
view_of-put_cell k f v t = refl

pub view_of-set :
    (k v : Bytes) (t : Table) → view_of (on_store (set_on k v) t) ≡ set_on k v (view_of t)
unfolding view_of set_on
view_of-set k v t = refl

pub incr_value : (k : Bytes) (t : Table) → t.store.counter k + 1 ≡ (view_of t).counter k + 1
unfolding view_of
incr_value k t = refl

pub view_of-incr :
    (k : Bytes) (t : Table) → view_of (on_store (incr_on k) t) ≡ incr_on k (view_of t)
unfolding view_of incr_on
view_of-incr k t = refl

pub view_of-sadd :
    (k m : Bytes) (t : Table) → view_of (on_store (sadd_on k m) t) ≡ sadd_on k m (view_of t)
unfolding view_of sadd_on
view_of-sadd k m t = refl

pub view_of-expire :
    (k : Bytes) (d : ℕ) (t : Table)
    → view_of (on_store (expire_on k d) t) ≡ expire_on k d (view_of t)
unfolding view_of expire_on
view_of-expire k d t = refl

pub view_of-persist :
    (k : Bytes) (t : Table) → view_of (on_store (persist_on k) t) ≡ persist_on k (view_of t)
unfolding view_of persist_on
view_of-persist k t = refl

abbrev pub table_redis : Redis Table
table_redis = record {
  hget = λ k f t. find k f t.cells;
  get = λ k t. t.store.text k;
  sismember = λ k m t. t.store.member k m;
  hset = put_cell;
  set = λ k v. on_store (set_on k v);
  incr = λ k t. (t.store.counter k + 1, on_store (incr_on k) t);
  sadd = λ k m. on_store (sadd_on k m);
  expire = λ k d. on_store (expire_on k d);
  persist = λ k. on_store (persist_on k);
  view = view_of;
  hget-view = hget-view_of;
  get-view = get-view_of;
  sismember-view = sismember-view_of;
  view-hset = view_of-put_cell;
  view-set = view_of-set;
  incr_value = incr_value;
  view-incr = view_of-incr;
  view-sadd = view_of-sadd;
  view-expire = view_of-expire;
  view-persist = view_of-persist;
}

abbrev pub table_reader : HashReader table_redis
table_reader = record {
  hgetall = λ k t. collect k t.cells;
  lookup-hgetall = λ k f t. lookup-collect k f t.cells;
}

abbrev pub empty_table : Table
empty_table = record { store = empty_store; cells = [] }
