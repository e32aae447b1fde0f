-- ===== src/Cache.antt =====
-- web-app/src/utils/cache.ts and web-app/src/utils/prismaCache.ts: the cache of the database's answers.
-- The package `node-cache` is a parameter; the clock is an argument, in seconds. A call that finds
-- nothing awaits its function, so calls overlap: they are events.
pub mod Keys
pub mod Taken
pub mod Stale
pub mod Refresh
use dymension_rollapp_block.Common.{
  ℕ, zero, suc, ◌+◌, ◌≤◌, ◌<◌, ◌≡◌, ◌≢◌, Bool, true, false, Option, none, some, List, [], ◌∷◌, ◌++◌,
  ◌==◌, if◌then◌else◌,
}
use dymension_rollapp_block.Common.Text.{Str, text}

-- `DEFAULT_CACHE_DURATION` of consts/setting.ts
abbrev pub default_cache_duration : ℕ
default_cache_duration = 10

-- What is used of `node-cache`. Documented: a value is found under its key until its time to live is
-- over, and the keys do not touch one another.
pub record NodeCache (V : Type 0) : Type 1 where
  pub Store : Type 0
  pub empty : Store
  pub find : Store → (now : ℕ) → Str → Option V
  pub put : Store → (now : ℕ) → Str → V → (ttl : ℕ) → Store
  pub find-empty : (now : ℕ) (k : Str) → find empty now k ≡ none
  pub find-put_other :
      (s : Store) (t now ttl : ℕ) (k j : Str) (v : V)
      → k ≢ j
      → find (put s t k v ttl) now j ≡ find s now j
  pub find-put_expired :
      (s : Store) (t now ttl : ℕ) (k : Str) (v : V)
      → t + ttl < now
      → find (put s t k v ttl) now k ≡ none
  pub find-put_value :
      (s : Store) (t now ttl : ℕ) (k : Str) (v w : V)
      → find (put s t k v ttl) now k ≡ some w
      → v ≡ w
  pub find-put_fresh :
      (s : Store) (t now ttl : ℕ) (k : Str) (v : V)
      → t ≤ now
      → now < t + ttl
      → find (put s t k v ttl) now k ≡ some v

-- `revalidateInSecond || DEFAULT_CACHE_DURATION`; `undefined` and `false` are `none`.
abbrev pub time_to_live : Option ℕ → ℕ
time_to_live none = default_cache_duration
time_to_live (some zero) = default_cache_duration
time_to_live (some (suc n)) = suc n

-- A call of the cached function: its key, its arguments and its time to live.
pub record Call (A : Type 0) : Type 0 where
  pub key : Str
  pub args : A
  pub ttl : ℕ

-- A call that was answered or whose function settled, with the value and the time.
pub record Outcome (A V : Type 0) : Type 0 where
  pub call : Call A
  pub open call use *
  pub value : V
  pub at : ℕ

-- The calls that await their function are `pending`; `settled` and `answered` record what happened.
pub record Machine (A V S : Type 0) : Type 0 where
  pub store : S
  pub now : ℕ
  pub pending : List (Call A)
  pub settled : List (Outcome A V)
  pub answered : List (Outcome A V)

pub data Event (A V : Type 0) : Type 0 where
  waits : ℕ → Event A V
  calls : Str → A → Option ℕ → Event A V
  settles : ℕ → V → Event A V
  fails : ℕ → Event A V

-- The element at an index, and the others.
abbrev pub taken {ℓ} : {A : Type ℓ} → List A → ℕ → Option (A × List A)
taken [] i = none
taken (x ∷ xs) zero = some (x, xs)
taken (x ∷ xs) (suc i) = elim (taken xs i) [ none ↦ none | some (y, ys) ↦ some (y, x ∷ ys) ]

-- `[key, stringify(args)].join()`
unfoldable pub cache_key : {A : Type 0} → (A → Str) → Str → A → Str
cache_key stringify key args = key ++ text "," ++ stringify args

module _ {A V : Type 0} (truthy : V → Bool) (stringify : A → Str) (node : NodeCache V) where
  open node use {Store, empty, find, put}

  abbrev pub start : Machine A V Store
  start = record { store = empty; now = 0; pending = []; settled = []; answered = [] }

  -- The function up to its `await`. A value that is falsy is passed over.
  unfoldable pub call_cached : Machine A V Store → Call A → Machine A V Store
  unfolding cache_key
  call_cached m c = elim (find m.store m.now (cache_key stringify c.key c.args)) [
    | none ↦ record m { pending = c ∷ m.pending }
    | some v ↦
        if truthy v
        then record m { answered = record { call = c; value = v; at = m.now } ∷ m.answered }
        else record m { pending = c ∷ m.pending }
  ]

  -- The function behind its `await`.
  unfoldable pub settle_call : Machine A V Store → Call A → List (Call A) → V → Machine A V Store
  unfolding cache_key
  settle_call m c others v =
      let outcome : Outcome A V = record { call = c; value = v; at = m.now } in
      record m {
        store = put m.store m.now (cache_key stringify c.key c.args) v c.ttl;
        pending = others;
        settled = outcome ∷ m.settled;
        answered = outcome ∷ m.answered;
      }

  unfoldable pub step : Machine A V Store → Event A V → Machine A V Store
  unfolding call_cached settle_call
  step m (waits n) = record m { now = m.now + n }
  step m (calls key args revalidate) =
      call_cached m (record { key = key; args = args; ttl = time_to_live revalidate })
  step m (settles i v) = elim (taken m.pending i) [
    | none ↦ m
    | some (c, others) ↦ settle_call m c others v
  ]
  step m (fails i) = elim (taken m.pending i) [
    | none ↦ m
    | some (c, others) ↦ record m { pending = others }
  ]

  unfoldable pub play : Machine A V Store → List (Event A V) → Machine A V Store
  unfolding step
  play m [] = m
  play m (e ∷ events) = play (step m e) events

-- `queryWithCache`: which calls of the database go through the cache.
pub record CacheStrategy : Type 0 where
  pub enabled : Bool
  pub revalidate : Option ℕ

pub data Route : Type 0 where
  direct : Route
  cached : Str → Option ℕ → Route

-- `none` for arguments without a strategy; without arguments there is none either.
unfoldable pub query_with_cache : (model action : Str) → Option CacheStrategy → Route
query_with_cache model action none = direct
query_with_cache model action (some s) =
    if s.enabled
    then cached (text "prisma," ++ model ++ text "," ++ action) s.revalidate
    else direct
