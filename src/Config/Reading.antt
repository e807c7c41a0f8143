-- ===== src/Config/Reading.antt =====
-- src/pkg/config/source/store.go: how a store is opened. What reading and decoding the file yields is an
-- argument; an entry that cannot be decoded is `none`.
use frpcv.Prelude.{
  if◌then◌else◌, Bool-cases, Text, text_eq, nat_eq, ◌==◌, eq_false, or_else, Dict, lookup, insert,
  lookup-insert, ◌≡◌, refl, ap, ◌∙◌, ◌≢◌, inl, inr, Bool, true, false, not, Option, none, some,
  List, [], ◌∷◌, arith,
}
use frpcv.Config.Store.{BaseConfig, Maps, StoreSource}
use frpcv.Config.Store.Sync.{Same, SameMaps, Synced, last_named, or_else_assoc}

pub data ReadResult (P V : Type 0) : Type 0 where
  missing unreadable not_json : ReadResult P V
  stored : List (Option P) → List (Option V) → ReadResult P V

pub data LoadResult : Type 0 where
  loaded file_missing read_failed parse_failed decode_failed unnamed : LoadResult

-- One loop over the entries of the file; the map is filled as far as it comes.
unfoldable pub collect_decoded :
    {C : Type 0} → (C → BaseConfig) → Dict Text C → List (Option C) → Dict Text C × LoadResult
collect_decoded base d [] = (d, loaded)
collect_decoded base d (none ∷ cs) = (d, decode_failed)
collect_decoded base d (some c ∷ cs) =
    if (base c).name == [] then (d, unnamed) else collect_decoded base (insert (base c).name c d) cs

unfoldable pub is_loaded : LoadResult → Bool
is_loaded loaded = true
is_loaded _ = false

pub data Opened (P V : Type 0) : Type 0 where
  opened : StoreSource P V → Opened P V
  path_required : Opened P V
  load_failed : LoadResult → Opened P V

-- A missing file is no error.
unfoldable pub open_with : {P V : Type 0} → Maps P V × LoadResult → Opened P V
open_with (maps, loaded) = opened (record { memory = maps; file = maps })
open_with (maps, file_missing) = opened (record { memory = maps; file = maps })
open_with (maps, other) = load_failed other

module _ {P V : Type 0} (pbase : P → BaseConfig) (vbase : V → BaseConfig) where
  unfoldable pub load_from_file : Maps P V → ReadResult P V → Maps P V × LoadResult
  unfolding collect_decoded is_loaded
  load_from_file maps missing = (maps, file_missing)
  load_from_file maps unreadable = (maps, read_failed)
  load_from_file maps not_json = (maps, parse_failed)
  load_from_file maps (stored ps vs) =
      let (proxies, r) = collect_decoded pbase [] ps in
      if not (is_loaded r)
      then (record { proxies = proxies; visitors = [] }, r)
      else (let (visitors, q) = collect_decoded vbase [] vs in
          (record { proxies = proxies; visitors = visitors }, q))

  -- NewStoreSource
  unfoldable pub new_store_source : Text → ReadResult P V → Opened P V
  unfolding load_from_file
  new_store_source path read =
      if path == []
      then path_required
      else open_with (load_from_file (record { proxies = []; visitors = [] }) read)

collect_decoded-lookup :
    {C : Type 0} (base : C → BaseConfig) (d : Dict Text C) (cs : List (Option C)) (k : Text)
    → (collect_decoded base d cs).1 ≡ loaded
    → lookup k (collect_decoded base d cs).0 ≡ or_else (last_named base k cs) (lookup k d)
unfolding collect_decoded last_named
collect_decoded-lookup base d [] k h = refl
collect_decoded-lookup base d (none ∷ cs) k h = absurd (cc)
collect_decoded-lookup base d (some c ∷ cs) k h = elim (Bool-cases ((base c).name == [])) [
  | inl e ↦ absurd (ground arith)
  | inr e ↦
      let ih = collect_decoded-lookup base (insert (base c).name c d) cs k (ground arith) in
      rw (e, collect_decoded)
        (ih
          ∙ ap (λ o. or_else (last_named base k cs) o) (lookup-insert (base c).name k c d)
          ∙ or_else_assoc (last_named base k cs) ((base c).name == k) c (lookup k d))
]

-- Every entry is decoded and has a name.
unfoldable pub AllNamed : {C : Type 0} → (C → BaseConfig) → List (Option C) → Type 0
AllNamed base [] = Unit
AllNamed base (none ∷ cs) = ⊥
AllNamed base (some c ∷ cs) = ((base c).name ≢ []) × AllNamed base cs

named_loaded :
    {C : Type 0} (base : C → BaseConfig) (d : Dict Text C) (cs : List (Option C))
    → AllNamed base cs
    → (collect_decoded base d cs).1 ≡ loaded
unfolding collect_decoded AllNamed
named_loaded base d [] v = refl
named_loaded base d (none ∷ cs) v = absurd v
named_loaded base d (some c ∷ cs) (n, v) =
    rw (eq_false (base c).name [] n, collect_decoded)
      (named_loaded base (insert (base c).name c d) cs v)

or_none : {C : Type 0} (o : Option C) → or_else o none ≡ o
or_none none = refl
or_none (some c) = refl

load_named :
    {P V : Type 0} (pbase : P → BaseConfig) (vbase : V → BaseConfig) (maps : Maps P V)
    (ps : List (Option P)) (vs : List (Option V))
    → (collect_decoded pbase [] ps).1 ≡ loaded
    → (collect_decoded vbase [] vs).1 ≡ loaded
    → load_from_file pbase vbase maps (stored ps vs) ≡ (
      record {
        proxies = (collect_decoded pbase [] ps).0;
        visitors = (collect_decoded vbase [] vs).0;
      },
      loaded,
    )
unfolding load_from_file
load_named {P} {V} pbase vbase maps ps vs a b =
    both (collect_decoded pbase [] ps) (collect_decoded vbase [] vs) a b
  where
    both :
        (x : Dict Text P × LoadResult) (y : Dict Text V × LoadResult)
        → x.1 ≡ loaded
        → y.1 ≡ loaded
        → ◌≡◌ {A = Maps P V × LoadResult}
            (if not (is_loaded x.1)
              then (record { proxies = x.0; visitors = [] }, x.1)
              else (record { proxies = x.0; visitors = y.0 }, y.1))
            (record { proxies = x.0; visitors = y.0 }, loaded)
    both (x, r) (y, q) a b = rw (a, b) (unfold is_loaded in refl)

-- A store whose path is given and whose file holds configurations that all have names is opened: its
-- memory agrees with the file, and holds under each name the last configuration of that name.
pub new_store_source-lookup :
    {P V : Type 0} (pbase : P → BaseConfig) (vbase : V → BaseConfig) (path : Text)
    (ps : List (Option P)) (vs : List (Option V))
    → path ≢ []
    → AllNamed pbase ps
    → AllNamed vbase vs
    → (s : StoreSource P V) × (new_store_source pbase vbase path (stored ps vs) ≡ opened s)
      × Synced s
      × ((k : Text) → lookup k s.memory.proxies ≡ last_named pbase k ps)
      × ((k : Text) → lookup k s.memory.visitors ≡ last_named vbase k vs)
unfolding new_store_source open_with Synced SameMaps Same lookup
new_store_source-lookup {P} {V} pbase vbase path ps vs n v w =
    let a = named_loaded pbase [] ps v in
    let b = named_loaded vbase [] vs w in
    let none_yet : Maps P V = record { proxies = []; visitors = [] } in
    let maps : Maps P V = record {
      proxies = (collect_decoded pbase [] ps).0;
      visitors = (collect_decoded vbase [] vs).0;
    } in
    (
      record { memory = maps; file = maps },
      rw (eq_false path [] n) (ap (λ r. open_with r) (load_named pbase vbase none_yet ps vs a b)),
      (λ k. refl, λ k. refl),
      λ k. collect_decoded-lookup pbase [] ps k a ∙ or_none (last_named pbase k ps),
      λ k. collect_decoded-lookup vbase [] vs k b ∙ or_none (last_named vbase k vs),
    )
